-- ===== src/Base/Reports.antt =====
-- Lists of problems that grow by tests, and when such a list is empty; names that occur once.
use mathlib.Core.Path.{◌≡◌, refl, sym}
use mathlib.Core.Logic.{◌↔◌, inl, inr}
use mathlib.Core.Bool.{Bool, true, false}
use mathlib.Core.List.{List, [], ◌∷◌, ◌++◌}
use chitchat.Base.Tests.{if◌then◌else◌}
use chitchat.Base.Lists.{All, In}
use chitchat.Base.Text.{Str}

-- `if b { add(text) }`
abbrev pub report : Bool → Str → List Str
report b text = if b then text ∷ [] else []

pub report_iff {ℓ} :
    {b : Bool} {P : Type ℓ} (text : Str) → (b ≡ false) ↔ P → (report b text ≡ []) ↔ P
report_iff {b = true} text e = (λ h. cc, λ p. cc (e.1 p))
report_iff {b = false} text e = (λ h. e.0 refl, λ p. refl)

pub append_iff {ℓ κ} :
    {xs ys : List Str} {P : Type ℓ} {Q : Type κ}
    → (xs ≡ []) ↔ P
    → (ys ≡ []) ↔ Q
    → (xs ++ ys ≡ []) ↔ (P × Q)
append_iff {xs = []} e f = (λ h. (e.0 refl, f.0 h), λ w. f.1 w.1)
append_iff {xs = x ∷ xs} e f = (λ h. cc, λ w. cc (e.1 w.0))

-- No name of the list stands in `seen` or twice in the list.
abbrev pub Fresh : List Str → List Str → Type 0
Fresh seen [] = Unit
Fresh seen (n ∷ ns) = (¬ In n seen) × Fresh (n ∷ seen) ns

-- No name of the list occurs twice.
abbrev pub Distinct : List Str → Type 0
Distinct [] = Unit
Distinct (n ∷ ns) = (¬ In n ns) × Distinct ns

apart_iff :
    (n : Str) (seen ns : List Str)
    → All (λ m. ¬ In m (n ∷ seen)) ns ↔ (All (λ m. ¬ In m seen) ns × (¬ In n ns))
apart_iff n seen [] = (λ h. (tt, λ x. x), λ h. tt)
apart_iff n seen (m ∷ ns) =
    let ih = apart_iff n seen ns in
    (
      λ (a, b).
          let (c, d) = ih.0 b in
          ((λ h. a (inr h), c), λ h. elim h [ inl e ↦ a (inl (sym e)) | inr i ↦ d i ]),
      λ (w, d).
          (λ h. elim h [ inl e ↦ d (inl (sym e)) | inr i ↦ w.0 i ], ih.1 (w.1, λ i. d (inr i))),
    )

Fresh-iff : (seen ns : List Str) → Fresh seen ns ↔ (All (λ m. ¬ In m seen) ns × Distinct ns)
Fresh-iff seen [] = (λ h. (tt, tt), λ h. tt)
Fresh-iff seen (n ∷ ns) =
    let ih = Fresh-iff (n ∷ seen) ns in
    let ap = apart_iff n seen ns in
    (
      λ (a, b). let (c, d) = ih.0 b in let (e, g) = ap.0 c in ((a, e), (g, d)),
      λ (w, v). (w.0, ih.1 (ap.1 (w.1, v.0), v.1)),
    )

All-nothing : (ns : List Str) → All (λ m. ¬ In m []) ns
All-nothing [] = tt
All-nothing (n ∷ ns) = (λ h. h, All-nothing ns)

pub Fresh-Distinct : (ns : List Str) → Fresh [] ns ↔ Distinct ns
Fresh-Distinct ns = (λ h. ((Fresh-iff [] ns).0 h).1, λ h. (Fresh-iff [] ns).1 (All-nothing ns, h))
