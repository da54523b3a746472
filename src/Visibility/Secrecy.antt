-- ===== src/Visibility/Secrecy.antt =====
-- visibility.resolver.ts: what an answer does not tell.
use tftsp.Common.{ℕ, ◌≡◌, refl, true, false, Option, none, some, List, [], ◌∷◌, arith, Text}
use tftsp.Database.{Person}
use tftsp.Visibility.{
  ViewerContext, in_scope, passes_policies, is_visible, redact, filter_persons, resolve_one,
}

-- other photos for the same persons
abbrev pub with_photos : (ℕ → Option Text) → List (ℕ × Person) → List (ℕ × Person)
with_photos photo [] = []
with_photos photo ((id, p) ∷ rows) =
    (id, record p { photo_key = photo id }) ∷ with_photos photo rows

-- other birth dates for the same persons
abbrev pub with_birth_dates : (ℕ → Option ℕ) → List (ℕ × Person) → List (ℕ × Person)
with_birth_dates birth [] = []
with_birth_dates birth ((id, p) ∷ rows) =
    (id, record p { birth_date = birth id }) ∷ with_birth_dates birth rows

module _ (ctx : ViewerContext) (eighteen : ℕ) (plain : ctx.bypass_policies ≡ false) where
  -- For a viewer without the bypass of policies, where photos are not shown: the answer is the same for the
  -- same persons with other photos.
  pub filter_persons-with_photos :
      ctx.settings.show_photos ≡ false
      → (photo : ℕ → Option Text) (rows : List (ℕ × Person))
      → filter_persons ctx eighteen (with_photos photo rows) ≡ filter_persons ctx eighteen rows
  unfolding filter_persons redact is_visible in_scope passes_policies
  filter_persons-with_photos closed photo [] = refl
  filter_persons-with_photos closed photo ((id, p) ∷ rows) =
      rw (plain, closed, filter_persons-with_photos closed photo rows) refl

  -- For a viewer without the bypass of policies, where birth dates are not shown and minors are: the answer
  -- is the same for the same persons with other birth dates.
  pub filter_persons-with_birth_dates :
      ctx.settings.show_birth_dates ≡ false
      → ctx.settings.show_minors ≡ true
      → (birth : ℕ → Option ℕ) (rows : List (ℕ × Person))
      → filter_persons ctx eighteen (with_birth_dates birth rows) ≡ filter_persons ctx eighteen rows
  unfolding filter_persons redact is_visible in_scope passes_policies
  filter_persons-with_birth_dates closed minors birth [] = refl
  filter_persons-with_birth_dates closed minors birth ((id, p) ∷ rows) =
      rw (plain, closed, minors, filter_persons-with_birth_dates closed minors birth rows) refl

-- A list of one person shows what a single read of that person shows, or nothing where it shows nothing.
pub resolve_one-filter_persons :
    (ctx : ViewerContext) (eighteen id : ℕ) (p : Person)
    → filter_persons ctx eighteen ((id, p) ∷ [])
      ≡ (elim (resolve_one ctx eighteen id (some p)) [ none ↦ [] | some q ↦ q ∷ [] ])
unfolding filter_persons resolve_one
resolve_one-filter_persons ctx eighteen id p = ground arith
