-- ===== src/Cryptoki/Hotplug.antt =====
-- The hotplug events of src/wp11_pkcs11.c: hotplug_push_event and C_WaitForSlotEvent with
-- CKF_DONT_BLOCK.
pub mod Events
pub mod Laws
pub mod Traces
use wolf_p.Prelude.{
  ℕ, ◌+◌, ◌%◌, ◌^◌, Bool, true, false, not, List, ◌==◌, if◌then◌else◌, get_or, set, Result, ok, err,
}

-- WP11_HOTPLUG_QUEUE_SIZE.
abbrev pub queue_size : ℕ
queue_size = 64

-- `wp11_hotplug_event_t`.
pub record Event : Type 0 where
  pub slot_id : ℕ
  pub arrived : Bool

abbrev pub no_slot : Event
no_slot = record { slot_id = 0; arrived = false }

-- The ring and its indices. `ready` is `g_hotplug_mutex_ready`; `lock_ok` is whether its mutex can
-- be locked.
pub record Ring : Type 0 where
  pub ready : Bool
  pub lock_ok : Bool
  pub head : ℕ
  pub tail : ℕ
  pub dropped : ℕ
  pub queue : List Event

-- `hotplug_push_event`; the counter of dropped events is a 32-bit one.
unfoldable pub push_event : Event → Ring → Ring
push_event ev r =
    if not r.ready
    then r
    else if not r.lock_ok
    then r
    else let next_tail = (r.tail + 1) % queue_size in
      if not (next_tail == r.head)
      then record r { queue = set r.queue r.tail ev; tail = next_tail }
      else record r { dropped = (r.dropped + 1) % 2 ^ 32 }

pub data WaitErr : Type 0 where
  arguments_bad cryptoki_not_initialized unsupported general_error no_event : WaitErr

-- C_WaitForSlotEvent with CKF_DONT_BLOCK: `out` is whether `pSlot` is not NULL, and `entered`
-- whether the library's lock was had and the library is initialized.
unfoldable pub wait_for_slot_event : Bool → Bool → Ring → Result WaitErr ℕ × Ring
wait_for_slot_event out entered r =
    if not out
    then (err arguments_bad, r)
    else if not entered
    then (err cryptoki_not_initialized, r)
    else if not r.ready
    then (err unsupported, r)
    else if not r.lock_ok
    then (err general_error, r)
    else if not (r.head == r.tail)
    then (ok (get_or r.queue r.head no_slot).slot_id, record r { head = (r.head + 1) % queue_size })
    else (err no_event, r)
