-- ===== src/Resource/Tests.antt =====
-- Two devices of one group, the first of which was used last.
use datacard.Base.{◌==◌, ◌≡◌, arith, true, false, [], ◌∷◌, List, length, none}
use datacard.Bytes.{Bytes}
use datacard.Calls.Tests.{idle}
use datacard.Resource.{Device, can_dial, find_device_by_resource_ex, search}
use datacard.Resource.Answers.{Correct, names, find_device_by_resource_ex-Correct}
use datacard.Resource.Turn.{first_can, rotate, search-first_can}

abbrev first_device : Device
first_device = record {
  address = 1;
  id = b'a' ∷ [];
  group = 3;
  provider_name = [];
  imsi = [];
  imei = [];
  group_last_used = true;
  prov_last_used = false;
  sim_last_used = false;
  pvt = idle;
}

abbrev second_device : Device
second_device = record first_device { address = 2; id = b'b' ∷ []; group_last_used = false }

abbrev devices : List Device
devices = first_device ∷ second_device ∷ []

abbrev group_three : Bytes
group_three = b'r' ∷ b'3' ∷ []

find_device_by_resource_ex-Correct_example :
    Correct
      (names group_three)
      (can_dial true none)
      devices
      (find_device_by_resource_ex group_three true none devices)
find_device_by_resource_ex-Correct_example =
    find_device_by_resource_ex-Correct group_three true none devices (omega arith)

search-first_can_example :
    search (λ d. d.address == 2) devices (length devices) 1
    ≡ first_can (λ d. d.address == 2) (rotate 1 devices)
search-first_can_example = search-first_can (λ d. d.address == 2) devices 1 (omega arith)
