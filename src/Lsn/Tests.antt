-- ===== src/Lsn/Tests.antt =====
-- A log position printed and parsed.
use pg_kinetic.Prelude.{codes, ◌≡◌, refl, arith}
use pg_kinetic.Lsn.{
  ok, err, missing_separator, PgLsn, display, from_str, hex, segment, offset, split_once,
  parse_split,
}
use pg_kinetic.Lsn.RoundTrip.{from_str-display}

abbrev position : PgLsn
position = 0x16B374D848

position_text : display position ≡ codes "16/B374D848"
unfolding display hex segment offset
position_text = refl

no_slash : from_str (codes "16") ≡ err missing_separator
unfolding from_str split_once parse_split
no_slash = refl

from_str-display_example : from_str (display position) ≡ ok position
from_str-display_example = from_str-display position (omega arith)
