-- ===== src/Resource.antt =====
-- chan_datacard.c and channel.c: the choice of a device for a call by a resource, the first that can
-- take the call or, in turn, the next after the one that was used last.
pub mod Turn
pub mod Found
pub mod Answers
mod Tests
use datacard.Base.{
  ℕ, zero, suc, ◌-◌, ◌<◌, Bool, true, false, not, ◌&&◌, ◌||◌, List, [], ◌∷◌, ◌++◌, Option, none,
  some, ltb, leb, ◌==◌, if◌then◌else◌, length, take, drop, get_elem?,
}
use datacard.Bytes.{Bytes, byte_at}
use datacard.Scan.{strtol, to_int, str_equal, strn_equal}
use datacard.Calls.{Pvt, points_to}
use datacard.Calls.Dial.{ready4voice_call}

-- The fields of `struct pvt` that the choice looks at, with the device's address.
pub record Device : Type 0 where
  pub address : ℕ
  pub id : Bytes
  pub group : ℕ
  pub provider_name : Bytes
  pub imsi : Bytes
  pub imei : Bytes
  pub group_last_used : Bool
  pub prov_last_used : Bool
  pub sim_last_used : Bool
  pub pvt : Pvt

-- MAXDATACARDDEVICES
abbrev pub max_devices : ℕ
max_devices = 256

-- `channels_loop`; the requestor is the device of its call, if it is a channel of the driver.
unfoldable pub channels_loop : Device → Option ℕ → Bool
channels_loop d requestor = points_to requestor d.address

-- `can_dial`; `hold_other` is the flag CALL_FLAG_HOLD_OTHER of `opts`.
unfoldable pub can_dial : Bool → Option ℕ → Device → Bool
unfolding channels_loop
can_dial hold_other requestor d =
    if hold_other && channels_loop d requestor
    then false
    else ready4voice_call d.pvt none hold_other

-- Which device is marked as the last used: by group, by provider or by SIM.
pub data Mark : Type 0 where
  by_group by_provider by_sim : Mark

abbrev pub last_used : Mark → Device → Bool
last_used by_group d = d.group_last_used
last_used by_provider d = d.prov_last_used
last_used by_sim d = d.sim_last_used

abbrev pub set_used : Mark → Bool → Device → Device
set_used by_group b d = record d { group_last_used = b }
set_used by_provider b d = record d { prov_last_used = b }
set_used by_sim b d = record d { sim_last_used = b }

-- The loop that fills `round_robin` with the devices that match, from the place `c` on, and clears
-- the mark: the devices after it, what is put into the array, and `last_used`.
unfoldable pub collect :
    (Device → Bool) → Mark → ℕ → ℕ → List Device → List Device × List Device × ℕ
collect matches mark c last [] = ([], [], last)
collect matches mark c last (d ∷ ds) =
    let hit = matches d in
    let (after, found, last') =
      collect matches mark (if hit then suc c else c) (if hit && last_used mark d then c else last)
        ds in
    if c == max_devices then (d ∷ ds, [], last) else (
      (if hit then set_used mark false d else d) ∷ after,
      if hit then d ∷ found else found,
      last',
    )

-- `j == c ? 0 : j`
abbrev pub wrap : ℕ → ℕ → ℕ
wrap c j = if j == c then 0 else j

-- The search for a device that can dial, from the place `j` of the array on.
abbrev pub chosen : (Device → Bool) → Option Device → Option Device → Option Device
chosen can none rest = none
chosen can (some d) rest = if can d then some d else rest

unfoldable pub search : (Device → Bool) → List Device → ℕ → ℕ → Option Device
search can array zero j = none
search can array (suc rounds) j =
    chosen can (get_elem? array (wrap (length array) j))
      (search can array rounds (suc (wrap (length array) j)))

abbrev pub mark_at : Mark → ℕ → List Device → List Device
mark_at mark p [] = []
mark_at mark p (d ∷ ds) =
    if d.address == p then set_used mark true d ∷ ds else d ∷ mark_at mark p ds

abbrev pub mark_found : Mark → Option Device → List Device → List Device
mark_found mark none ds = ds
mark_found mark (some d) ds = mark_at mark d.address ds

-- The branches that take the devices in turn: the device, `*exists` and the devices after it.
unfoldable pub in_turn :
    (Device → Bool) → Mark → (Device → Bool) → List Device → Option Device × Bool × List Device
unfolding collect search
in_turn matches mark can devices =
    let (after, array, last) = collect matches mark 0 0 devices in
    let found = search can array (length array) (suc last) in
    (found, ltb 0 (length array), mark_found mark found after)

-- The branches that take the first device.
unfoldable pub first_of : (Device → Bool) → (Device → Bool) → List Device → Option Device × Bool
first_of matches can [] = (none, false)
first_of matches can (d ∷ ds) =
    let (found, exists) = first_of matches can ds in
    if matches d then (if can d then (some d, true) else (found, true)) else (found, exists)

unfoldable pub in_order :
    (Device → Bool) → (Device → Bool) → List Device → Option Device × Bool × List Device
unfolding first_of
in_order matches can devices =
    let (found, exists) = first_of matches can devices in (found, exists, devices)

abbrev pub is_letter : ℕ → ℕ → Bytes → Bool
is_letter small large resource = byte_at resource 0 == small || byte_at resource 0 == large

abbrev pub then_digit : Bytes → Bool
then_digit resource = leb b'0' (byte_at resource 1) && leb (byte_at resource 1) b'9'

abbrev pub then_colon : Bytes → Bool
then_colon resource = byte_at resource 1 == b':'

-- `strtol (&resource[1], NULL, 10)`, whose base is valid.
abbrev pub group_of : Bytes → ℕ
group_of resource = to_int (strtol (drop 1 resource)).0

abbrev pub has_group : Bytes → Device → Bool
has_group resource d = d.group == group_of resource

abbrev pub has_provider : Bytes → Device → Bool
has_provider resource d = str_equal d.provider_name (drop 2 resource)

abbrev pub has_sim : Bytes → Device → Bool
has_sim resource d = strn_equal (length (drop 2 resource)) d.imsi (drop 2 resource)

abbrev pub has_imei : Bytes → Device → Bool
has_imei resource d = str_equal d.imei (drop 2 resource)

abbrev pub has_id : Bytes → Device → Bool
has_id resource d = str_equal d.id resource

-- `find_device_by_resource_ex`
unfoldable pub find_device_by_resource_ex :
    Bytes → Bool → Option ℕ → List Device → Option Device × Bool × List Device
unfolding in_turn in_order
find_device_by_resource_ex resource hold_other requestor devices =
    let can = can_dial hold_other requestor in
    if is_letter b'g' b'G' resource && then_digit resource
    then in_order (has_group resource) can devices
    else if is_letter b'r' b'R' resource && then_digit resource
    then in_turn (has_group resource) by_group can devices
    else if is_letter b'p' b'P' resource && then_colon resource
    then in_turn (has_provider resource) by_provider can devices
    else if is_letter b's' b'S' resource && then_colon resource
    then in_turn (has_sim resource) by_sim can devices
    else if is_letter b'i' b'I' resource && then_colon resource
    then in_order (has_imei resource) can devices
    else in_order (has_id resource) can devices
