-- ===== src/AtParse/Creg.antt =====
-- `at_parse_creg`: a loop over the characters of the answer, with nine states, and what it makes of the
-- fields that it found.
pub mod Reading
pub mod Fields
use datacard.Base.{
  ℕ, zero, suc, Bool, true, false, not, ◌&&◌, ◌||◌, List, [], ◌∷◌, ◌++◌, map, Option, none, some,
  leb, ◌==◌, if◌then◌else◌, set, take, drop, get_elem?,
}
use datacard.Bytes.{Bytes}
use datacard.Scan.{scan_number, strtol, to_int, minus_one}
use datacard.AtParse.{c_string}

-- The state: 0, then 7 - 2k before and 6 - 2k within a field that k others follow, and 8.
pub data CregAt : Type 0 where
  before_colon : CregAt
  starting : ℕ → CregAt
  within : ℕ → CregAt
  all_read : CregAt

-- The text, in which commas become 0, and those of p1 to p4 that are set, in this order.
pub record CregScan : Type 0 where
  pub at_ : CregAt
  pub marks : List ℕ
  pub text : Bytes

-- The `switch` for the character at offset `i`, with the cases that it falls through to.
unfoldable pub creg_char : CregAt → ℕ → ℕ → CregScan → CregScan
creg_char before_colon i c m = if c == b':' then record m { at_ = starting 3 } else m
creg_char (starting zero) i c m =
    if c == b' ' then m else record m { marks = m.marks ++ (i ∷ []); at_ = all_read }
creg_char (starting (suc k)) i c m =
    if c == b' '
    then m
    else if c == b','
    then record { marks = m.marks ++ (i ∷ []); text = set m.text i 0; at_ = starting k }
    else record m { marks = m.marks ++ (i ∷ []); at_ = within k }
creg_char (within k) i c m =
    if c == b',' then record m { text = set m.text i 0; at_ = starting k } else m
creg_char all_read i c m = m

unfoldable pub creg_loop : Bytes → ℕ → CregScan → CregScan
unfolding creg_char
creg_loop [] i m = m
creg_loop (c ∷ cs) i m = creg_loop cs (suc i) (creg_char m.at_ i c m)

-- `state < 2`
abbrev pub early : CregAt → Bool
early before_colon = true
early (starting k) = leb 3 k
early (within k) = false
early all_read = false

-- What `at_parse_creg` gives when it returns 0.
pub record Creg : Type 0 where
  pub gsm_reg : Bool
  pub gsm_reg_status : ℕ
  pub lac : Option Bytes
  pub ci : Option Bytes

abbrev pub is_set : Option Bytes → Bool
is_set none = false
is_set (some b) = true

-- The texts at `p2`, `p3` and `p4` that are the location area and the cell.
abbrev pub place : Option Bytes → Option Bytes → Option Bytes → Option Bytes × Option Bytes
place p2 p3 p4 =
    if is_set p2 && is_set p3 && not (is_set p4)
    then (p2, p3)
    else if is_set p3 && is_set p4
    then (p3, p4)
    else (none, none)

abbrev pub status_text : Option Bytes → Option Bytes → Option Bytes → Option Bytes → Option Bytes
status_text p1 p2 p3 p4 =
    if (is_set p2 && not (is_set p3) && not (is_set p4)) || (is_set p2 && is_set p3 && is_set p4)
    then p2
    else p1

abbrev has_number : Option (Bool × Bytes × Bytes) → Bool
has_number none = false
has_number (some n) = true

-- `einval` is whether `strtol` sets `errno` to EINVAL for a text without digits.
module _ (einval : Bool) where
  -- The part of `at_parse_creg` that reads the status; `none` is the result -1.
  unfoldable pub creg_status : Option Bytes → Option Bytes × Option Bytes → Option Creg
  creg_status none (lac, ci) =
      some (record { gsm_reg = false; gsm_reg_status = minus_one; lac = lac; ci = ci })
  creg_status (some p) (lac, ci) =
      let status = to_int (strtol p).0 in
      if status == 0 && (einval && not (has_number (scan_number p)))
      then none
      else some (record {
        gsm_reg = status == 1 || status == 5;
        gsm_reg_status = status;
        lac = lac;
        ci = ci;
      })

  -- The part behind the loop, on the texts that the pointers point to.
  unfoldable pub creg_result : Bool → List Bytes → Option Creg
  unfolding creg_status
  creg_result too_early ps =
      let p1 = get_elem? ps 0 in
      let p2 = get_elem? ps 1 in
      let p3 = get_elem? ps 2 in
      let p4 = get_elem? ps 3 in
      if too_early then none else creg_status (status_text p1 p2 p3 p4) (place p2 p3 p4)

  -- `at_parse_creg`
  unfoldable pub parse_creg : Bytes → ℕ → Option Creg
  unfolding creg_loop creg_result
  parse_creg str len =
      let m = creg_loop (take len str) 0 (record { at_ = before_colon; marks = []; text = str }) in
      creg_result (early m.at_) (map (λ p. c_string (drop p m.text)) m.marks)
