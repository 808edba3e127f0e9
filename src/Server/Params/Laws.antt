-- ===== src/Server/Params/Laws.antt =====
-- server/src/query_params.rs: numbers within their range.
use moenotes_api.Prelude.{◌^◌, ◌≡◌}
use moenotes_api.Int.{InRange, ℤ}
use moenotes_api.Decimal.{text_of}
use moenotes_api.Server.Json.{Value, string_value}
use moenotes_api.Server.Params.{print_signed}

-- The value of an `int64` parameter is the text of a 64-bit integer, printed anew, and every such
-- integer is taken in this form.
abbrev pub Int64Text : Value → Type 0
Int64Text v = (z : ℤ) × InRange (2 ^ 63) z × (v ≡ string_value (text_of (print_signed z)))
