-- ===== src/Keys/Hkdf.antt =====
-- `hkdf_sha256` of backend/app/sync/key_wraps.py over any HMAC, and RFC 5869's own recurrence.
use jeeves.Common.{
  ℕ, zero, suc, ◌+◌, ◌*◌, ◌/◌, ◌≤◌, ◌<◌, ◌≡◌, refl, false, [], ◌∷◌, ◌++◌, ltb, arith, if◌then◌else◌,
  length, take, length-append, length-take, Result, ok, err, Bool-cases, ◌⊎◌, inl, inr,
}
use jeeves.Common.Bytes.{Bytes, zeros}
use jeeves.Keys.Consts.{KeyWrapError}

-- `hashlib.sha256().digest_size`
abbrev pub digest_size : ℕ
digest_size = 32

-- The `while`, with `n` for `length`; `bytes([counter])` is a `ValueError` past 255.
unfoldable pub expand :
    (Bytes → Bytes → Bytes) → Bytes → Bytes → ℕ → ℕ → Bytes → Bytes → ℕ → Result KeyWrapError Bytes
expand hmac prk info n zero okm block counter = err KeyWrapError.out_of_fuel
expand hmac prk info n (suc fuel) okm block counter =
    let next = hmac prk (block ++ (info ++ counter ∷ [])) in
    let rest = expand hmac prk info n fuel (okm ++ next) next (suc counter) in
    if ltb (length okm) n
    then (if ltb 255 counter then err KeyWrapError.value_error else rest)
    else ok (take n okm)

-- `salt or bytes(digest_size)`
abbrev salt_or_zeros : Bytes → Bytes
salt_or_zeros [] = zeros digest_size
salt_or_zeros (b ∷ bs) = b ∷ bs

unfoldable pub hkdf_sha256 :
    (Bytes → Bytes → Bytes) → Bytes → Bytes → Bytes → ℕ → Result KeyWrapError Bytes
unfolding expand
hkdf_sha256 hmac ikm salt info n =
    if ltb (255 * digest_size) n
    then err KeyWrapError.value_error
    else expand hmac (hmac (salt_or_zeros salt) ikm) info n 256 [] [] 1

-- RFC 5869: `T(0)` is empty, `T(i)` is the HMAC of `T(i - 1)`, the info and the byte `i`.
unfoldable pub rfc_block : (Bytes → Bytes → Bytes) → Bytes → Bytes → ℕ → Bytes
rfc_block hmac prk info zero = []
rfc_block hmac prk info (suc i) = hmac prk (rfc_block hmac prk info i ++ (info ++ suc i ∷ []))

-- `T(1) | ... | T(i)`
unfoldable pub rfc_blocks : (Bytes → Bytes → Bytes) → Bytes → Bytes → ℕ → Bytes
unfolding rfc_block
rfc_blocks hmac prk info zero = []
rfc_blocks hmac prk info (suc i) = rfc_blocks hmac prk info i ++ rfc_block hmac prk info (suc i)

module _ (hmac : Bytes → Bytes → Bytes)
    (sized : (key message : Bytes) → length (hmac key message) ≡ 32) (prk info : Bytes) where
  length-rfc_blocks : (i : ℕ) → length (rfc_blocks hmac prk info i) ≡ i * 32
  unfolding rfc_blocks rfc_block
  length-rfc_blocks zero = refl
  length-rfc_blocks (suc i) = omega (
    arith,
    length-append (rfc_blocks hmac prk info i)
        (hmac prk (rfc_block hmac prk info i ++ (info ++ suc i ∷ []))),
    length-rfc_blocks i,
    sized prk (rfc_block hmac prk info i ++ (info ++ suc i ∷ [])),
  )

  expand-rfc_blocks :
      (n fuel c : ℕ)
      → n ≤ 8160
      → c ≤ (n + 31) / 32
      → (n + 31) / 32 < c + fuel
      → expand hmac prk info n fuel (rfc_blocks hmac prk info c) (rfc_block hmac prk info c) (suc c)
        ≡ ok (take n (rfc_blocks hmac prk info ((n + 31) / 32)))
  unfolding expand rfc_blocks rfc_block
  expand-rfc_blocks n zero c small below enough = absurd (omega arith)
  expand-rfc_blocks n (suc fuel) c small below enough =
      let size = length-rfc_blocks c in
      elim (Bool-cases (ltb (length (rfc_blocks hmac prk info c)) n)) [
        | inl more ↦
            let one_byte : ltb 255 (suc c) ≡ false = ground arith in
            rw (more, one_byte)
              (expand-rfc_blocks n fuel (suc c) small (ground arith) (omega (arith, enough)))
        | inr done ↦ let last : c ≡ (n + 31) / 32 = ground arith in rw (done, ← last) refl
      ]

-- Asked for at most 8160 bytes the loop ends within 256 turns, and what is returned has the length
-- asked for and is the prefix of the blocks of RFC 5869, of which there are as many as it takes; a
-- longer key is refused. The HMAC returns 32 bytes.
pub hkdf_sha256-Rfc :
    (hmac : Bytes → Bytes → Bytes) (ikm salt info : Bytes) (n : ℕ)
    → ((key message : Bytes) → length (hmac key message) ≡ 32)
    → ((n ≤ 8160)
        × ((okm : Bytes) × (hkdf_sha256 hmac ikm salt info n ≡ ok okm)
            × ((length okm ≡ n)
                × (okm
                    ≡ take n
                        (rfc_blocks hmac (hmac (salt_or_zeros salt) ikm) info ((n + 31) / 32))))))
      ⊎ ((8160 < n) × (hkdf_sha256 hmac ikm salt info n ≡ err KeyWrapError.value_error))
unfolding hkdf_sha256
hkdf_sha256-Rfc hmac ikm salt info n sized = elim (Bool-cases (ltb 8160 n)) [
  | inl long ↦ inr (ground arith, ground arith)
  | inr short ↦
      let prk = hmac (salt_or_zeros salt) ikm in
      let small : n ≤ 8160 = ground arith in
      let blocks = rfc_blocks hmac prk info ((n + 31) / 32) in
      inl (
        small,
        (
          take n blocks,
          rw short (
              unfold rfc_blocks rfc_block in
              expand-rfc_blocks hmac sized prk info n 256 0 small (omega arith) (omega arith)),
          (
            omega (
              arith,
              length-take n blocks,
              length-rfc_blocks hmac sized prk info ((n + 31) / 32),
            ),
            refl,
          ),
        ),
      )
]
