-- ===== src/Session/Frame/Hash.antt =====
-- The hashes of a row that its table carries (crates/nmux-core/src/session.rs, `stable_row_hash`
-- and `row_state_hash`): 64-bit FNV-1a, of the line's bytes, and of what Rust's `Hash` writes for
-- the runs and the row's metadata.
use nmux.Base.{
  ℕ, zero, suc, ◌+◌, ◌*◌, ◌/◌, ◌%◌, ◌^◌, ltb, Bool, true, false, Text, List, [], ◌∷◌, ◌++◌, length,
  if◌then◌else◌,
}
use nmux.Protocol.{RowSemanticPrompt, CellSemanticContent}
use nmux.Terminal.{CellRun}

-- `str::as_bytes`.
unfoldable pub utf8 : ℕ → List ℕ
utf8 c =
    if ltb c 0x80
    then c ∷ []
    else if ltb c 0x800
    then (0xc0 + c / 0x40) ∷ (0x80 + c % 0x40) ∷ []
    else if ltb c 0x10000
    then (0xe0 + c / 0x1000) ∷ (0x80 + c / 0x40 % 0x40) ∷ (0x80 + c % 0x40) ∷ []
    else (0xf0 + c / 0x40000)
      ∷ (0x80 + c / 0x1000 % 0x40)
      ∷ (0x80 + c / 0x40 % 0x40)
      ∷ (0x80 + c % 0x40)
      ∷ []

unfoldable pub as_bytes : Text → List ℕ
unfolding utf8
as_bytes [] = []
as_bytes (c ∷ cs) = utf8 c ++ as_bytes cs

-- `^` on `bits` bits.
unfoldable pub xor : ℕ → ℕ → ℕ → ℕ
xor zero a b = 0
xor (suc bits) a b = (a + b) % 2 + 2 * xor bits (a / 2) (b / 2)

abbrev fnv_offset : ℕ
fnv_offset = 0xcbf29ce484222325

abbrev fnv_prime : ℕ
fnv_prime = 0x100000001b3

-- The loop of `stable_row_hash`, and `write` of `StableHasher`.
unfoldable pub hasher_write : ℕ → List ℕ → ℕ
unfolding xor
hasher_write hash [] = hash
hasher_write hash (byte ∷ bytes) = hasher_write (xor 64 hash byte * fnv_prime % 2 ^ 64) bytes

unfoldable pub stable_row_hash : Text → ℕ
unfolding hasher_write as_bytes
stable_row_hash line = hasher_write fnv_offset (as_bytes line)

pub record RowStateMetadata : Type 0 where
  pub semantic_prompt : RowSemanticPrompt
  pub dirty : Bool
  pub kitty_virtual_placeholder : Bool

-- The byte that an enumeration wraps.
abbrev prompt_byte : RowSemanticPrompt → ℕ
prompt_byte RowSemanticPrompt.none = 0
prompt_byte RowSemanticPrompt.prompt = 1
prompt_byte RowSemanticPrompt.continuation = 2
prompt_byte (RowSemanticPrompt.unknown n) = n

abbrev content_byte : CellSemanticContent → ℕ
content_byte CellSemanticContent.output = 0
content_byte CellSemanticContent.input = 1
content_byte CellSemanticContent.prompt = 2
content_byte (CellSemanticContent.unknown n) = n

abbrev flag_byte : Bool → ℕ
flag_byte true = 1
flag_byte false = 0

-- The `n` low bytes of a number, the lowest first.
unfoldable pub to_le_bytes : ℕ → ℕ → List ℕ
to_le_bytes zero n = []
to_le_bytes (suc count) n = n % 256 ∷ to_le_bytes count (n / 256)

-- A string is followed by a byte 0xff, a vector preceded by its length.
unfoldable pub run_bytes : CellRun → List ℕ
unfolding as_bytes to_le_bytes
run_bytes run =
    as_bytes run.text
    ++ 0xff ∷ to_le_bytes 8 (length run.cell_widths)
    ++ run.cell_widths
    ++ to_le_bytes 4 run.style_id
    ++ to_le_bytes 4 run.flags
    ++ to_le_bytes 4 run.hyperlink_id
    ++ content_byte run.semantic_content ∷ []

unfoldable pub runs_bytes : List CellRun → List ℕ
unfolding run_bytes
runs_bytes [] = []
runs_bytes (run ∷ runs) = run_bytes run ++ runs_bytes runs

unfoldable pub row_state_hash : List CellRun → RowStateMetadata → ℕ
unfolding hasher_write runs_bytes
row_state_hash runs metadata = hasher_write (hasher_write fnv_offset (runs_bytes runs)) (
    prompt_byte metadata.semantic_prompt
    ∷ flag_byte metadata.dirty
    ∷ flag_byte metadata.kitty_virtual_placeholder
    ∷ [])
