-- ===== src/Samples/Drivers.antt =====
-- The theorems on the vendors' drivers applied to small libraries.
use xlurm.Device.Valid.{validate-IsKeyed}
use xlurm.Base.{
  ℕ, ◌+◌, ◌≤◌, ◌<◌, ◌≡◌, refl, subst, ◌≢◌, true, false, Option, none, some, List, [], ◌∷◌, ◌++◌,
  if◌then◌else◌, nat_eq, ◌==◌, list_beq, option_eq, Text, text, text_eq, All, ok, err, int_eq, pos,
}
use xlurm.Model.{kind_eq, kind_label, key, state_eq, Device, metax, idle}
use xlurm.Model.Errors.{no_devices, system}
use xlurm.Scheduler.Machine.{Inventory}
use xlurm.Scheduler.Tick.{is_idle}
use xlurm.Scheduler.Allocate.Devices.{IsKeyed}
use xlurm.Device.{all_new, validate}
use xlurm.Device.Discover.{Vendors, only}
use xlurm.Device.Discover
use xlurm.Device.Loaded.{load_kind, by_libraries, discover-IsKeyed, Libraries}
use xlurm.Device.Refresh.{refresh}
use xlurm.Device.Drivers.{monitors, Drivers}
use xlurm.Device.Drivers.Evidence.{Evidence, asked_in, refresh-Evidence}
use xlurm.Device.Drivers.Silent.{refresh-fail_closed, Silent}
use xlurm.Driver.{Foreign}
use xlurm.Driver.Metax.{Mxsml}
use xlurm.Driver.Hcu.{device_count, busy_devices, Smi}
use xlurm.Driver.Hcu.Busy.{busy_devices-bounded}
use xlurm.Samples.{describe_none}

abbrev World : Type 0
World = Unit {0}

-- `str::from_utf8` on the bytes of the samples.
abbrev ascii : List ℕ → Option Text
ascii bytes = some bytes

-- A library with two devices, both available and free.
abbrev two_cards : Mxsml ℕ World
two_cards = record {
  count = λ w. ((pos 0, 2), w);
  handle = λ id w. ((pos 0, some id), w);
  uuid = λ h w. ((pos 0, text "GPU-" ++ ((65 + h) ∷ 0 ∷ [])), w);
  name = λ h w. ((pos 0, text "C500" ++ (0 ∷ [])), w);
  processes = λ h capacity w. ((pos 0, (0, λ i. 0)), w);
  availability = λ id w. ((pos 0, pos 0), w);
}

abbrev only_metax : Drivers ℕ World
only_metax = record {
  query_processes = λ w. (err (system (text "no nvidia-smi")), w);
  query_health = λ w. (err (system (text "no hy-smi")), w);
  ascend_driver = none;
  mthreads_driver = none;
  metax_driver = some two_cards;
  ppu_driver = none;
  hcu_driver = none;
}

abbrev metax_card : ℕ → Text → Device
metax_card id visible = record {
  kind = metax;
  id = id;
  name = text "C500";
  visible = visible;
  npu = none;
  chip = none;
}

abbrev two_metax : List Device
two_metax = metax_card 0 (text "GPU-A") ∷ metax_card 1 (text "GPU-B") ∷ []

abbrev metax_inventory : Inventory
metax_inventory = record { devices = two_metax; status = []; monitoring_errors = [] }

accepted : validate two_metax ≡ ok two_metax
unfolding validate all_new key kind_label list_beq
accepted = refl

second_idle :
    is_idle
      (refresh (monitors ascii only_metax) describe_none metax_inventory tt).0.status
      (metax_card 1 (text "GPU-B"))
    ≡ true
unfolding refresh monitors key kind_label list_beq
second_idle = refl

refresh-Evidence_example :
    Evidence ascii only_metax describe_none metax two_metax
      (metax_card 1 (text "GPU-B"))
      tt
      (asked_in ascii only_metax describe_none metax_inventory tt 1)
refresh-Evidence_example =
    refresh-Evidence ascii only_metax describe_none metax_inventory tt 1
      (metax_card 1 (text "GPU-B")) (validate-IsKeyed two_metax two_metax accepted).2 refl
      second_idle

-- The library is there, but it refuses to open a device.
abbrev broken_cards : Mxsml ℕ World
broken_cards = record two_cards { handle = λ id w. ((pos 1, none), w) }

abbrev only_broken : Drivers ℕ World
only_broken = record only_metax { metax_driver = some broken_cards }

-- Both devices were idle before.
abbrev were_idle : Inventory
were_idle = record metax_inventory {
  status = (text "mx:GPU-A", idle) ∷ (text "mx:GPU-B", idle) ∷ [];
}

nothing_answers : Silent ascii only_broken describe_none
nothing_answers = record {
  nvidia_fails = λ w. (system (text "no nvidia-smi"), refl);
  health_fails = λ w. (system (text "no hy-smi"), refl);
  ascend_fails = λ driver e. absurd (cc);
  mthreads_fails = λ driver e. absurd (cc);
  metax_fails = λ driver e id w.
      let same : broken_cards ≡ driver = cc in
      subst (λ (x : Mxsml ℕ World). (x.handle id w).0.0 ≢ pos 0) same (λ h. absurd (cc));
  ppu_fails = λ driver e. absurd (cc);
}

refresh-fail_closed_example :
    is_idle
      (refresh (monitors ascii only_broken) describe_none were_idle tt).0.status
      (metax_card 1 (text "GPU-B"))
    ≡ false
refresh-fail_closed_example =
    refresh-fail_closed ascii only_broken describe_none nothing_answers were_idle tt 1
      (metax_card 1 (text "GPU-B")) (validate-IsKeyed two_metax two_metax accepted).2 refl

-- Two devices, the second of which a process uses.
abbrev one_process : Smi World
one_process = record {
  count = λ w. ((pos 0, 2), w);
  unique_id = λ id w. ((pos 0, 16 + id), w);
  processes = λ capacity w. ((pos 0, (1, λ i. 4711)), w);
  process_gpus = λ process capacity w. ((pos 0, (1, λ i. 1)), w);
}

second_busy : (busy_devices one_process tt).0 ≡ ok (1 ∷ [])
unfolding busy_devices
second_busy = refl

busy_devices-bounded_example :
    (n : ℕ) × ((device_count one_process tt).0 ≡ ok n) × (n ≤ 64) × All (λ id. id < n) (1 ∷ [])
busy_devices-bounded_example = busy_devices-bounded one_process tt (1 ∷ []) second_busy

abbrev no_answer : {A : Type 0} → A → Foreign A World
no_answer a w = ((pos 1, a), w)

-- Only the MetaX library can be opened, where no variable is set.
abbrev metax_libraries : Libraries ℕ ℕ World
metax_libraries = record {
  loader = record {
    getenv = λ variable. none;
    dlopen = λ path w. (if path == text "libmxsml.so" then some 0 else none, w);
    dlsym = λ library name w. (true, w);
    dlerror = λ w. (none, w);
    start = λ library name w. ((pos 0, true), w);
  };
  mxsml = λ library. two_cards;
  hgml = λ library. record {
    count = no_answer 0;
    handle = λ id. no_answer none;
    uuid = λ h. no_answer [];
    name = λ h. no_answer [];
    processes = λ h capacity. no_answer (0, λ i. 0);
  };
  mtml = λ library. record {
    count = no_answer 0;
    device = λ id. no_answer none;
    uuid = λ h. no_answer [];
    name = λ h. no_answer [];
    process_count = λ h. no_answer 0;
  };
  smi = λ library. one_process;
  newer_dcmi = λ library. record {
    device_list = λ capacity. no_answer (pos 0, λ i. pos 0);
    chip_info = λ id. no_answer [];
    health = λ id. no_answer 0;
    processes = λ id capacity. no_answer (pos 0);
  };
  older_dcmi = λ library. record {
    cards = λ capacity. no_answer (pos 0, λ i. pos 0);
    device_count = λ id. no_answer (pos 0);
    chip = λ id chip. no_answer [];
    health = λ id chip. no_answer 0;
    processes = λ id chip capacity. no_answer (pos 0);
  };
}

abbrev metax_vendors : Vendors World
metax_vendors = record {
  query_gpus = λ w. (err (system (text "no nvidia-smi")), w);
  load = λ kind w. (err no_devices, w);
  monitors = λ loaded. monitors ascii only_metax;
}

found_two :
    (Discover.discover
      (by_libraries metax_libraries ascii describe_none metax_vendors)
      describe_none
      (only metax)
      tt).0
    ≡ ok (refresh (monitors ascii only_metax) describe_none metax_inventory tt).0
unfolding Discover.discover load_kind refresh monitors list_beq key
found_two = refl

discover-IsKeyed_example :
    IsKeyed (refresh (monitors ascii only_metax) describe_none metax_inventory tt).0.devices
discover-IsKeyed_example =
    discover-IsKeyed metax_libraries ascii describe_none metax_vendors (only metax) tt
      (refresh (monitors ascii only_metax) describe_none metax_inventory tt).0 found_two
