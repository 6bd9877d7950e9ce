-- ===== src/Envelope/Fields.antt =====
-- Fixed-width fields laid end to end, as `struct` packs and unpacks byte fields.
use jeeves.Common.{
  ℕ, zero, suc, ◌+◌, ◌≤◌, ◌≡◌, refl, ap, ◌∙◌, List, [], ◌∷◌, ◌++◌, arith, append_assoc, length,
  take, drop, length-append, length-take, length-drop, take-append, drop-append,
}
use jeeves.Common.Bytes.{Bytes, AreBytes}

unfoldable pub join : List Bytes → Bytes
join [] = []
join (f ∷ fs) = f ++ join fs

unfoldable pub split_fields : List ℕ → Bytes → List Bytes
split_fields [] raw = []
split_fields (w ∷ ws) raw = take w raw ∷ split_fields ws (drop w raw)

abbrev pub total : List ℕ → ℕ
total [] = 0
total (w ∷ ws) = w + total ws

-- Each field has its width.
abbrev pub HaveWidths : List ℕ → List Bytes → Type 0
HaveWidths [] [] = Unit
HaveWidths [] (f ∷ fs) = ⊥
HaveWidths (w ∷ ws) [] = ⊥
HaveWidths (w ∷ ws) (f ∷ fs) = (length f ≡ w) × HaveWidths ws fs

abbrev pub AllBytes : List Bytes → Type 0
AllBytes [] = Unit
AllBytes (f ∷ fs) = AreBytes f × AllBytes fs

pub length-join : (ws : List ℕ) (fs : List Bytes) → HaveWidths ws fs → length (join fs) ≡ total ws
unfolding join
length-join [] [] h = refl
length-join [] (f ∷ fs) h = absurd h
length-join (w ∷ ws) [] h = absurd h
length-join (w ∷ ws) (f ∷ fs) h = omega (arith, length-append f (join fs), length-join ws fs h.1)

pub split_fields-join :
    (ws : List ℕ) (fs : List Bytes) (rest : Bytes)
    → HaveWidths ws fs
    → split_fields ws (join fs ++ rest) ≡ fs
unfolding join split_fields
split_fields-join [] [] rest h = refl
split_fields-join [] (f ∷ fs) rest h = absurd h
split_fields-join (w ∷ ws) [] rest h = absurd h
split_fields-join (w ∷ ws) (f ∷ fs) rest h = rw (
  append_assoc f (join fs) rest,
  take-append w f (join fs ++ rest) h.0,
  drop-append w f (join fs ++ rest) h.0,
  split_fields-join ws fs rest h.1,
)

take_nil : (n : ℕ) → take {A = ℕ} n [] ≡ []
take_nil zero = refl
take_nil (suc n) = refl

take_prefixes : (n m : ℕ) (xs : Bytes) → take n xs ++ take m (drop n xs) ≡ take (n + m) xs
take_prefixes zero m xs = ap (λ k. take k xs) (omega arith)
take_prefixes (suc n) m [] = rw (take_nil m, take_nil (suc n + m))
take_prefixes (suc n) m (x ∷ xs) =
    ap (λ l. x ∷ l) (take_prefixes n m xs)
    ∙ ap (λ k. take k (x ∷ xs)) {x = suc (n + m)} (omega arith)

pub join-split_fields :
    (ws : List ℕ) (raw : Bytes) → join (split_fields ws raw) ≡ take (total ws) raw
unfolding join split_fields
join-split_fields [] raw = refl
join-split_fields (w ∷ ws) raw =
    rw (join-split_fields ws (drop w raw)) (take_prefixes w (total ws) raw)

pub HaveWidths-split_fields :
    (ws : List ℕ) (raw : Bytes) → total ws ≤ length raw → HaveWidths ws (split_fields ws raw)
unfolding split_fields
HaveWidths-split_fields [] raw h = tt
HaveWidths-split_fields (w ∷ ws) raw h = (
  omega (arith, length-take w raw),
  HaveWidths-split_fields ws (drop w raw) (omega (arith, length-drop w raw)),
)

pub AreBytes-take : (n : ℕ) (xs : Bytes) → AreBytes xs → AreBytes (take n xs)
AreBytes-take zero xs h = tt
AreBytes-take (suc n) [] h = tt
AreBytes-take (suc n) (x ∷ xs) h = (h.0, AreBytes-take n xs h.1)

AreBytes-drop : (n : ℕ) (xs : Bytes) → AreBytes xs → AreBytes (drop n xs)
AreBytes-drop zero xs h = h
AreBytes-drop (suc n) [] h = tt
AreBytes-drop (suc n) (x ∷ xs) h = AreBytes-drop n xs h.1

pub AllBytes-split_fields :
    (ws : List ℕ) (raw : Bytes) → AreBytes raw → AllBytes (split_fields ws raw)
unfolding split_fields
AllBytes-split_fields [] raw h = tt
AllBytes-split_fields (w ∷ ws) raw h =
    (AreBytes-take w raw h, AllBytes-split_fields ws (drop w raw) (AreBytes-drop w raw h))
