-- ===== src/Errs/Codes.antt =====
-- The table of codes: `Known` accepts exactly the declared ones.
use overpass.Prelude.{◌≡◌, refl, ◌↔◌, true, List, [], ◌∷◌, map, String, Bool-cases, inl, inr}
use overpass.Prelude.Text.{same, same_eq, contains}
use overpass.Errs.{Code, code_text, all, known, bad_request}

found :
    (s : String) (cs : List Code)
    → contains (map code_text cs) s ≡ true
    → (c : Code) × (code_text c ≡ s)
found s [] h = cc
found s (c ∷ cs) h = elim (Bool-cases (same (code_text c) s)) [
  | inl e ↦ (c, same_eq _ _ e)
  | inr e ↦ found s cs (rw e at h)
]

known-code_text : (c : Code) → known (code_text c) ≡ true
unfolding known
known-code_text bad_request = refl
known-code_text _ = refl

-- `Known` accepts a text exactly when it is the text of a declared code.
pub known_iff : (s : String) → (known s ≡ true) ↔ ((c : Code) × (code_text c ≡ s))
unfolding known
known_iff s = (λ h. found s all h, λ w. rw (← w.1) (known-code_text w.0))
