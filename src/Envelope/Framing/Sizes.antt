-- ===== src/Envelope/Framing/Sizes.antt =====
-- The padded lengths: legal, large enough, and the smallest of those.
use jeeves.Common.{ℕ, ◌+◌, ◌≤◌, ◌≡◌, true, arith}
use jeeves.Envelope.Consts.{header_length_bytes, signature_length_bytes}
use jeeves.Envelope.Framing.{
  padded_body_length, is_legal_body_length, is_legal_body_length_for_suite,
  minimum_envelope_bytes_for_suite,
}

-- A padded length is legal and holds what is framed, and no legal length that holds it is shorter.
pub padded_body_length-least :
    (n : ℕ)
    → (is_legal_body_length (padded_body_length n) ≡ true)
      × (n ≤ padded_body_length n)
      × ((m : ℕ) → is_legal_body_length m ≡ true → n ≤ m → padded_body_length n ≤ m)
unfolding padded_body_length is_legal_body_length
padded_body_length-least n = (ground arith, ground arith, λ m legal fits. ground arith)

-- The server's floor for a suite turns away no envelope whose body has a legal length for it.
pub legal_body-ge-floor :
    (suite n : ℕ)
    → is_legal_body_length_for_suite suite n ≡ true
    → minimum_envelope_bytes_for_suite suite ≤ header_length_bytes + n + signature_length_bytes
unfolding is_legal_body_length_for_suite minimum_envelope_bytes_for_suite
legal_body-ge-floor suite n legal = ground arith
