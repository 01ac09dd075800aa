-- ===== src/Database/Interval.antt =====
-- crates/strata-db/src/storage/codec/interval.rs: the value codec of intervals. The fields are two's
-- complement bits.
use strata_db.Prelude.{ℕ, ◌^◌, ◌<◌, List, ◌++◌, Decoder, ◌>>=◌, pure}
use strata_db.Prelude.Reads.{Reads, Reads-bind, Reads-map}
use strata_db.Database.Scalar.{DecodeError, encode_bits, decode_bits}
use strata_db.Database.Scalar.RoundTrip.{decode_bits-encode_bits}

pub record Interval : Type 0 where
  pub months : ℕ
  pub days : ℕ
  pub micros : ℕ

unfoldable pub encode_interval : Interval → List ℕ
encode_interval v = encode_bits 4 v.months ++ (encode_bits 4 v.days ++ encode_bits 8 v.micros)

unfoldable pub decode_interval : Decoder DecodeError (List ℕ) Interval
decode_interval = do
  months ← decode_bits 4
  days ← decode_bits 4
  micros ← decode_bits 8
  pure (record { months = months; days = days; micros = micros })

-- An interval whose fields fit their widths is read back field by field, whatever follows.
pub decode_interval-encode_interval :
    (v : Interval)
    → v.months < 2 ^ 32
    → v.days < 2 ^ 32
    → v.micros < 2 ^ 64
    → Reads decode_interval (encode_interval v) v
unfolding decode_interval encode_interval
decode_interval-encode_interval v hm hd hu =
    Reads-bind (decode_bits 4) _ (decode_bits-encode_bits 4 v.months hm) (
      Reads-bind (decode_bits 4) _ (decode_bits-encode_bits 4 v.days hd)
        (Reads-map (decode_bits 8) _ (decode_bits-encode_bits 8 v.micros hu)))
