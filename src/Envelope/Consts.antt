-- ===== src/Envelope/Consts.antt =====
-- The constants of envelope.py.
use jeeves.Common.{ℕ, ◌+◌, Bool, List, [], ◌∷◌, ◌==◌, any}
use jeeves.Common.Bytes.{Bytes, zeros}

abbrev pub suite_plaintext_v1 : ℕ
suite_plaintext_v1 = 0x00

abbrev pub suite_aead_v1 : ℕ
suite_aead_v1 = 0x01

abbrev pub served_suites : List ℕ
served_suites = suite_plaintext_v1 ∷ suite_aead_v1 ∷ []

abbrev pub op_class_content : ℕ
op_class_content = 1

abbrev pub op_class_control : ℕ
op_class_control = 2

abbrev pub op_class_suggestion : ℕ
op_class_suggestion = 3

abbrev pub op_class_compaction : ℕ
op_class_compaction = 4

abbrev pub op_class_prune : ℕ
op_class_prune = 5

abbrev pub served_op_classes : List ℕ
served_op_classes = op_class_content ∷ op_class_control ∷ op_class_compaction ∷ op_class_prune ∷ []

abbrev pub plaintext_refused_at_keyed_epoch_op_classes : List ℕ
plaintext_refused_at_keyed_epoch_op_classes = op_class_content ∷ op_class_compaction ∷ []

-- `n in frozenset(...)`.
abbrev pub contains : List ℕ → ℕ → Bool
contains xs n = any (λ x. n == x) xs

abbrev pub header_length_bytes : ℕ
header_length_bytes = 158

abbrev pub signature_length_bytes : ℕ
signature_length_bytes = 64

abbrev pub envelope_overhead_bytes : ℕ
envelope_overhead_bytes = header_length_bytes + signature_length_bytes

abbrev pub author_key_id_bytes : ℕ
author_key_id_bytes = 8

abbrev pub prev_author_hash_bytes : ℕ
prev_author_hash_bytes = 32

abbrev pub observed_head_bytes : ℕ
observed_head_bytes = 32

abbrev pub nonce_bytes : ℕ
nonce_bytes = 24

abbrev pub sign_public_key_bytes : ℕ
sign_public_key_bytes = 32

abbrev pub aead_tag_bytes : ℕ
aead_tag_bytes = 16

abbrev pub workspace_key_bytes : ℕ
workspace_key_bytes = 32

-- The widths of HEADER_FIELD_LAYOUT, which the struct format ">BB16sI16s16s8sQ32s32s24s" repeats.
abbrev pub header_field_widths : List ℕ
header_field_widths = 1 ∷ 1 ∷ 16 ∷ 4 ∷ 16 ∷ 16 ∷ 8 ∷ 8 ∷ 32 ∷ 32 ∷ 24 ∷ []

-- The nonce's offset in HEADER_FIELD_LAYOUT.
abbrev pub nonce_offset : ℕ
nonce_offset = 134

abbrev pub zero_prev_author_hash : Bytes
zero_prev_author_hash = zeros prev_author_hash_bytes

abbrev pub payload_length_prefix_bytes : ℕ
payload_length_prefix_bytes = 4

abbrev pub body_size_classes_bytes : List ℕ
body_size_classes_bytes = 256 ∷ 1024 ∷ 4096 ∷ 16384 ∷ []

abbrev pub body_oversize_multiple_bytes : ℕ
body_oversize_multiple_bytes = 16384

abbrev pub minimum_envelope_bytes : ℕ
minimum_envelope_bytes = header_length_bytes + 256 + signature_length_bytes
