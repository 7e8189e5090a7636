-- ===== src/Cryptoki/Slots.antt =====
-- The slot table of src/wp11_pkcs11.c under tokens that come and go: slot_add, slot_remove and the
-- hotplug callback, without the slots' labels; and C_GetSlotList.
pub mod Table
pub mod Laws
pub mod Departures
use wolf_p.Prelude.{
  ℕ, suc, ◌+◌, Bool, true, false, not, ◌&&◌, ◌||◌, Option, none, some, List, [], ◌∷◌, ltb, ◌==◌,
  if◌then◌else◌, length, get_or, set, Result, ok, err, Call,
}
use wolf_p.TokenDb.{TokenDesc, lookup}
use wolf_p.Cryptoki.State.{
  Ckr, cryptoki_not_initialized, arguments_bad, buffer_too_small, Slot, zero_slot, Library, entered,
}
use wolf_p.Cryptoki.Sessions.{drop_sessions}
use wolf_p.Cryptoki.Hotplug.{Ring, Event, push_event}

-- A loop over the slots from index `i` on that stops at the first one to pass a test.
unfoldable pub find_from : (Slot → Bool) → ℕ → List Slot → Option ℕ
find_from p i [] = none
find_from p i (s ∷ slots) = if p s then some i else find_from p (i + 1) slots

-- The same over the slots for USB tokens; slot 0 is the soft token's.
unfoldable pub find_slot : (Slot → Bool) → List Slot → Option ℕ
find_slot p [] = none
find_slot p (soft_slot ∷ slots) = find_from p 1 slots

unfoldable pub is_token : ℕ → ℕ → Slot → Bool
is_token vid pid s = s.in_use && s.usb_vid == vid && s.usb_pid == pid

unfoldable pub is_free : Slot → Bool
is_free s = not s.in_use

unfoldable pub is_here : ℕ → ℕ → Slot → Bool
is_here vid pid s = is_token vid pid s && s.token_present

-- `slot_add`; `none` is (CK_SLOT_ID)-1.
unfoldable pub slot_add : ℕ → ℕ → Library → Option ℕ × Library
slot_add vid pid g = elim (lookup vid pid) [
  | none ↦ (none, g)
  | some desc ↦ elim (find_slot (is_token vid pid) g.slots) [
    | some i ↦ (
      some i,
      record g {
        slots = set g.slots i (record (get_or g.slots i zero_slot) { token_present = true });
      },
    )
    | none ↦ elim (find_slot is_free g.slots) [
      | none ↦ (none, g)
      | some i ↦ (
        some i,
        record g {
          slots = set g.slots i (record (get_or g.slots i zero_slot) {
            in_use = true;
            token_present = true;
            usb_vid = vid;
            usb_pid = pid;
            proto = desc.proto;
          });
        },
      )
    ]
  ]
]

-- `slot_remove` of a slot with no CCID context.
unfoldable pub slot_remove : ℕ → ℕ → Library → Option ℕ × Library
slot_remove vid pid g = elim (find_slot (is_here vid pid) g.slots) [
  | none ↦ (none, g)
  | some i ↦ (
    some i,
    record g {
      slots = set g.slots i (record (get_or g.slots i zero_slot) { token_present = false });
      sessions = drop_sessions i g.sessions;
    },
  )
]

-- `hotplug_cb`, by the device's descriptor if libusb returns one that passes the three checks, and
-- with the library's mutex (`locked`): the slot table first, then the event.
unfoldable pub hotplug_cb : Option (ℕ × ℕ) → Bool → Bool → Library → Ring → Library × Ring
hotplug_cb none locked arrived g r = (g, r)
hotplug_cb (some (vid, pid)) locked arrived g r = elim (lookup vid pid) [
  | none ↦ (g, r)
  | some desc ↦
      if not locked
      then (g, r)
      else (let (slot, g') = if arrived then slot_add vid pid g else slot_remove vid pid g in
          elim slot [
            | none ↦ (g', r)
            | some i ↦ (g', push_event (record { slot_id = i; arrived = arrived }) r)
          ])
]

-- The loop of C_GetSlotList from index `i` on.
unfoldable pub slot_ids : Bool → ℕ → List Slot → List ℕ
slot_ids present i [] = []
slot_ids present i (s ∷ slots) =
    let rest = slot_ids present (i + 1) slots in
    if not s.in_use then rest else if present && not s.token_present then rest else i ∷ rest

-- C_GetSlotList, with `*pulCount` on entry unless `pulCount` is NULL, and whether `pSlotList` is not
-- NULL: the result code, `*pulCount` on return if it was written, and the IDs written.
unfoldable pub get_slot_list :
    Bool → Option ℕ → Bool → Library → Result Ckr (Unit {0}) × Option ℕ × List ℕ
get_slot_list present room out g =
    if not g.lock_ok || not g.initialized
    then (err cryptoki_not_initialized, none, [])
    else elim room [
      | none ↦ (err arguments_bad, none, [])
      | some n ↦
          let ids = slot_ids present 0 g.slots in
          if not out
          then (ok tt, some (length ids), [])
          else if ltb n (length ids)
          then (err buffer_too_small, some (length ids), [])
          else (ok tt, some (length ids), ids)
    ]
