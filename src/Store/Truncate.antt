-- ===== src/Store/Truncate.antt =====
-- internal/store/truncate.go: byte caps on the text fields of a row.
pub mod Bounds
pub mod Runes
use trino_log_sink.Base.{
  Bool, Bytes, List, [], codes, if◌then◌else◌, leb, leb_ℤ, length, ltb, min_ℤ, not, pos, pos_part,
  refl, suc, take, zero, ℕ, ℤ, ◌%◌, ◌&&◌, ◌++◌, ◌+◌, ◌-◌, ◌/◌, ◌==◌, ◌∷◌, ◌≡◌, decimal,
}
use trino_log_sink.Store.Row.{Row}

abbrev pub max_small_field_bytes : ℕ
max_small_field_bytes = 16_384

-- `utf8.RuneStart`: not a continuation byte, which is 0b10xxxxxx.
unfoldable pub rune_start : ℕ → Bool
rune_start b = not (leb 128 b && ltb b 192)

-- `s[cut]`; the callers keep `cut` below the length.
byte_at : Bytes → ℕ → ℕ
byte_at [] i = 0
byte_at (c ∷ s) zero = c
byte_at (c ∷ s) (suc i) = byte_at s i

unfoldable pub rune_safe_cut : Bytes → ℕ → ℕ
unfolding byte_at rune_start
rune_safe_cut s zero = 0
rune_safe_cut s (suc cut) =
    let back = rune_safe_cut s cut in if rune_start (byte_at s (suc cut)) then suc cut else back

-- `fmt.Sprintf("\n…[truncated %d bytes]", n)`; the ellipsis is three bytes in UTF-8.
unfoldable pub marker : ℕ → Bytes
marker n = 10 ∷ 0xe2 ∷ 0x80 ∷ 0xa6 ∷ codes "[truncated " ++ decimal n ++ codes " bytes]"

unfoldable pub truncate : Bytes → ℤ → Bytes
truncate s max_bytes =
    if leb_ℤ (pos (length s)) max_bytes
    then s
    else if leb_ℤ max_bytes (pos 0)
    then []
    else let n = pos_part max_bytes in
      let room = length (marker (length s)) in
      if leb n room
      then take (rune_safe_cut s n) s
      else let cut = rune_safe_cut s (n - room) in take cut s ++ marker (length s - cut)

-- `truncate` in place, on the large fields and on the small ones.
unfoldable pub truncate_large : ℤ → Row → Row
truncate_large n r = record r {
  plan = truncate r.plan n;
  json_plan = truncate r.json_plan n;
  query_text = truncate r.query_text n;
  error_message = truncate r.error_message n;
  inputs_json = truncate r.inputs_json n;
}

unfoldable pub truncate_small : ℤ → Row → Row
truncate_small n r = record r {
  query_id = truncate r.query_id n;
  query_state = truncate r.query_state n;
  query_type = truncate r.query_type n;
  user_name = truncate r.user_name n;
  source = truncate r.source n;
  principal = truncate r.principal n;
  client_tags = truncate r.client_tags n;
  catalog = truncate r.catalog n;
  schema_name = truncate r.schema_name n;
  query_preview = truncate r.query_preview n;
  update_type = truncate r.update_type n;
  error_code = truncate r.error_code n;
  error_type = truncate r.error_type n;
  resource_group = truncate r.resource_group n;
  server_version = truncate r.server_version n;
  environment = truncate r.environment n;
}

unfoldable pub large_fields : Row → List Bytes
large_fields r = r.plan ∷ r.json_plan ∷ r.query_text ∷ r.error_message ∷ r.inputs_json ∷ []

unfoldable pub small_fields : Row → List Bytes
small_fields r =
    r.query_id ∷ r.query_state ∷ r.query_type ∷ r.user_name ∷ r.source ∷ r.principal ∷ r.client_tags
    ∷ r.catalog ∷ r.schema_name ∷ r.query_preview ∷ r.update_type ∷ r.error_code ∷ r.error_type
    ∷ r.resource_group ∷ r.server_version ∷ r.environment ∷ []

unfoldable pub string_fields : Row → List Bytes
unfolding large_fields small_fields
string_fields r = large_fields r ++ small_fields r

unfoldable pub truncate_fields : Row → ℤ → Row
truncate_fields r max_bytes =
    if leb_ℤ max_bytes (pos 0)
    then r
    else truncate_small (min_ℤ max_bytes (pos max_small_field_bytes)) (truncate_large max_bytes r)

marker_12345 : marker 12345 ≡ 10 ∷ 0xe2 ∷ 0x80 ∷ 0xa6 ∷ codes "[truncated 12345 bytes]"
unfolding marker decimal
marker_12345 = refl
