-- ===== src/AtParse.antt =====
-- at_parse.h and at_parse.c: the values in the modem's answers. A text is the list of its characters
-- before the final 0, a pointer into it an offset, and a text that a pointer is returned to is the
-- characters from there up to the next 0. Where `*str` is moved for a message only, that is left out.
pub mod Marks
pub mod Lines
pub mod Creg
pub mod Cmgr
mod Tests
use datacard.Base.{
  ℕ, zero, suc, ◌+◌, ◌-◌, ◌%◌, ◌^◌, Bool, true, false, not, ◌&&◌, ◌||◌, List, [], ◌∷◌, ◌++◌, Option,
  none, some, ◌==◌, ltb, leb, if◌then◌else◌, length, set, get_or, take, drop,
}
use datacard.Bytes.{Bytes, byte_at, memmem}
use datacard.Scan.{scan_u, scan_d, scan_2d, scan_literal, is_empty}

-- `mark_line`, from the offset `at` on: the offsets of the delimiters that were found.
unfoldable pub mark_line : Bytes → Bytes → ℕ → List ℕ
mark_line [] delimiters i = []
mark_line (c ∷ cs) [] i = []
mark_line (c ∷ cs) (d ∷ ds) i =
    let next = mark_line cs ds (suc i) in
    let same = mark_line cs (d ∷ ds) (suc i) in if c == d then i ∷ next else same

-- The characters before the first 0.
abbrev pub c_string : Bytes → Bytes
c_string [] = []
c_string (zero ∷ cs) = []
c_string (suc c ∷ cs) = suc c ∷ c_string cs

-- The text between the marks `a` and `b`, without the quotes around it, and where it starts:
-- `a++; if (a[0] == '"') a++; if (b[-1] == '"') b--; b[0] = 0`.
abbrev pub past_quote : ℕ → ℕ → ℕ
past_quote c a = if c == b'"' then suc (suc a) else suc a

abbrev pub before_quote : ℕ → ℕ → ℕ
before_quote c b = if c == b'"' then b - 1 else b

abbrev pub field_start : Bytes → ℕ → ℕ
field_start str a = past_quote (byte_at str (suc a)) a

abbrev pub field_end : Bytes → ℕ → ℕ
field_end str b = before_quote (byte_at str (b - 1)) b

unfoldable pub unquote : Bytes → ℕ → ℕ → Bytes
unquote str a b = c_string (drop (field_start str a) (set str (field_end str b) 0))

-- The delimiters ":,,", ":,,," and ":,,,,,,"
abbrev pub cnum_delimiters : Bytes
cnum_delimiters = b':' ∷ b',' ∷ b',' ∷ []

abbrev pub cops_delimiters : Bytes
cops_delimiters = b':' ∷ b',' ∷ b',' ∷ b',' ∷ []

abbrev pub clcc_delimiters : Bytes
clcc_delimiters = b':' ∷ b',' ∷ b',' ∷ b',' ∷ b',' ∷ b',' ∷ b',' ∷ []

-- `at_parse_cnum`
unfoldable pub cnum_marks : Bytes → List ℕ → Option Bytes
unfolding unquote
cnum_marks str (m0 ∷ m1 ∷ m2 ∷ []) = some (unquote str m1 m2)
cnum_marks str _ = none

unfoldable pub parse_cnum : Bytes → Option Bytes
unfolding cnum_marks mark_line
parse_cnum str = cnum_marks str (mark_line str cnum_delimiters 0)

-- `at_parse_cops`
unfoldable pub cops_marks : Bytes → List ℕ → Option Bytes
unfolding unquote
cops_marks str (m0 ∷ m1 ∷ m2 ∷ m3 ∷ []) = some (unquote str m2 m3)
cops_marks str _ = none

unfoldable pub parse_cops : Bytes → Option Bytes
unfolding cops_marks mark_line
parse_cops str = cops_marks str (mark_line str cops_delimiters 0)

-- The first value of an `sscanf`.
abbrev pub value_of : Option (ℕ × Bytes) → Option ℕ
value_of none = none
value_of (some (n, rest)) = some n

abbrev pub and_then {ℓ κ} : {A : Type ℓ} {B : Type κ} → Option A → (A → Option B) → Option B
and_then none f = none
and_then (some a) f = f a

-- %u behind a mark
abbrev pub uint_at : Bytes → ℕ → Option ℕ
uint_at str m = value_of (scan_u (drop (suc m) str))

-- "+CMTI: %*[^,],%u": the text up to the comma is not empty. The result -1 is `none`; an index of 2^31
-- or more is negative as the `int` that is returned.
skip_memory : Bytes → Option Bytes
skip_memory [] = none
skip_memory (c ∷ cs) = let rest = skip_memory cs in if c == b',' then some cs else rest

abbrev cmti_literal : Bytes
cmti_literal = b'+' ∷ b'C' ∷ b'M' ∷ b'T' ∷ b'I' ∷ b':' ∷ b' ' ∷ []

-- `at_parse_cmti`
pub parse_cmti : Bytes → Option ℕ
unfolding skip_memory
parse_cmti str =
    and_then (scan_literal cmti_literal str) (λ t.
      if byte_at t 0 == b',' then none else and_then (skip_memory t) (λ u. value_of (scan_u u)))

-- `at_parse_cusd`: the type, the text and the DCS, where that was scanned.
unfoldable pub cusd_text : Bytes → List ℕ → Bytes
unfolding unquote
cusd_text str (m0 ∷ m1 ∷ []) =
    let text = c_string (drop (field_start str m1) str) in
    if ltb 0 (length text) && byte_at text (length text - 1) == b'"'
    then take (length text - 1) text
    else text
cusd_text str (m0 ∷ m1 ∷ m2 ∷ ms) = unquote str m1 m2
cusd_text str _ = []

unfoldable pub cusd_dcs : Bytes → List ℕ → Option ℕ
cusd_dcs str (m0 ∷ m1 ∷ m2 ∷ ms) = uint_at str m2
cusd_dcs str _ = none

unfoldable pub cusd_marks : Bytes → List ℕ → Option (ℕ × Bytes × Option ℕ)
unfolding cusd_text cusd_dcs
cusd_marks str [] = none
cusd_marks str (m0 ∷ ms) =
    and_then (uint_at str m0) (λ type. some (type, cusd_text str (m0 ∷ ms), cusd_dcs str (m0 ∷ ms)))

unfoldable pub parse_cusd : Bytes → Option (ℕ × Bytes × Option ℕ)
unfolding cusd_marks mark_line
parse_cusd str = cusd_marks str (mark_line str cnum_delimiters 0)

-- `at_parse_cpin`: the index of the first of the texts that is found; -1 is `none`.
abbrev pub pin_ready : Bytes
pin_ready = b'R' ∷ b'E' ∷ b'A' ∷ b'D' ∷ b'Y' ∷ []

abbrev pub pin_pin : Bytes
pin_pin = b'S' ∷ b'I' ∷ b'M' ∷ b' ' ∷ b'P' ∷ b'I' ∷ b'N' ∷ []

abbrev pub pin_puk : Bytes
pin_puk = b'S' ∷ b'I' ∷ b'M' ∷ b' ' ∷ b'P' ∷ b'U' ∷ b'K' ∷ []

pin_loop : Bytes → ℕ → List Bytes → Option ℕ
pin_loop str i [] = none
pin_loop str i (value ∷ values) =
    let rest = pin_loop str (suc i) values in
    elim (memmem str value (length value)) [ none ↦ rest | some offset ↦ some i ]

pub parse_cpin : Bytes → Option ℕ
unfolding pin_loop
parse_cpin str = pin_loop str 0 (pin_ready ∷ pin_pin ∷ pin_puk ∷ [])

-- `at_parse_csq` with "+CSQ:%2d,"; the comma behind the number is not needed for the result.
pub parse_csq : Bytes → Option ℕ
parse_csq str = and_then (scan_literal (b'+' ∷ b'C' ∷ b'S' ∷ b'Q' ∷ b':' ∷ []) str) scan_2d

-- `at_parse_rssi` with "^RSSI:%d"; -1 is `none`.
pub parse_rssi : Bytes → Option ℕ
parse_rssi str =
    and_then (scan_literal (b'^' ∷ b'R' ∷ b'S' ∷ b'S' ∷ b'I' ∷ b':' ∷ []) str)
      (λ t. value_of (scan_d t))

-- "%d,%d"
unfoldable pub scan_pair : Bytes → Option (ℕ × ℕ)
scan_pair str =
    and_then (scan_d str) (λ r.
      and_then (scan_literal (b',' ∷ []) r.1) (λ t. and_then (scan_d t) (λ s. some (r.0, s.0))))

-- `at_parse_mode` with "^MODE:%d,%d"
pub parse_mode : Bytes → Option (ℕ × ℕ)
unfolding scan_pair
parse_mode str =
    and_then (scan_literal (b'^' ∷ b'M' ∷ b'O' ∷ b'D' ∷ b'E' ∷ b':' ∷ []) str) scan_pair

-- `at_parse_csca`
unfoldable pub csca_marks : Bytes → List ℕ → Option Bytes
csca_marks str (m0 ∷ m1 ∷ []) = some (c_string (drop (suc m0) (set str m1 0)))
csca_marks str _ = none

unfoldable pub parse_csca : Bytes → Option Bytes
unfolding csca_marks mark_line
parse_csca str = csca_marks str (mark_line str (b'"' ∷ b'"' ∷ []) 0)

-- What `at_parse_clcc` gives.
pub record Clcc : Type 0 where
  pub call_idx : ℕ
  pub dir : ℕ
  pub state : ℕ
  pub mode : ℕ
  pub mpty : ℕ
  pub number : Bytes
  pub toa : ℕ

-- `at_parse_clcc`
unfoldable pub clcc_marks : Bytes → List ℕ → Option Clcc
unfolding unquote
clcc_marks str (m0 ∷ m1 ∷ m2 ∷ m3 ∷ m4 ∷ m5 ∷ m6 ∷ []) = and_then (uint_at str m0) (λ call_idx.
    and_then (uint_at str m1) (λ dir. and_then (uint_at str m2) (λ state.
      and_then (uint_at str m3) (λ mode. and_then (uint_at str m4) (λ mpty.
        and_then (uint_at str m6) (λ toa. some (record {
          call_idx = call_idx;
          dir = dir;
          state = state;
          mode = mode;
          mpty = mpty;
          number = unquote str m5 m6;
          toa = toa;
        })))))))
clcc_marks str _ = none

unfoldable pub parse_clcc : Bytes → Option Clcc
unfolding clcc_marks mark_line
parse_clcc str = clcc_marks str (mark_line str clcc_delimiters 0)

-- `at_parse_ccwa`
unfoldable pub ccwa_marks : Bytes → List ℕ → Option ℕ
ccwa_marks str (m0 ∷ m1 ∷ m2 ∷ []) = uint_at str m2
ccwa_marks str _ = none

unfoldable pub parse_ccwa : Bytes → Option ℕ
unfolding ccwa_marks mark_line
parse_ccwa str = ccwa_marks str (mark_line str cnum_delimiters 0)
