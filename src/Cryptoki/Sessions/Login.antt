-- ===== src/Cryptoki/Sessions/Login.antt =====
-- What C_Login of src/wp11_pkcs11.c makes of the session that each handle gives.
use wolf_p.Prelude.{
  ℕ, zero, suc, ◌-◌, ◌≡◌, ◌≢◌, refl, sym, ap, ◌∙◌, Bool, true, false, Bool-cases, some, List, [],
  ◌∷◌, get_or, arith, ok, ◌⊎◌, inl, inr, if◌then◌else◌,
}
use wolf_p.Cryptoki.State.{
  rw_user_functions, ro_user_functions, rw_so_functions, Session, zero_session, Library, is_rw,
  session_get,
}
use wolf_p.Cryptoki.Sessions.{
  on_slot, slot_login, update_slot, has_read_only, log_in_user, log_in_so, login, cku_so, cku_user,
}
use wolf_p.Cryptoki.Sessions.Effects.{login_ok}

-- The entry of a table.
abbrev entry : List Session → ℕ → Session
entry ss i = get_or ss i zero_session

slot_login-none :
    (ss : List Session) (i slot : ℕ)
    → slot_login ss slot ≡ 0
    → on_slot slot (entry ss i) ≡ true
    → (entry ss i).logged_in ≡ 0
unfolding slot_login
slot_login-none [] i slot e here = refl
slot_login-none (s ∷ ss) zero slot e here = ground arith
slot_login-none (s ∷ ss) (suc i) slot e here = slot_login-none ss i slot (ground arith) here

has_read_only-none :
    (ss : List Session) (i slot : ℕ)
    → has_read_only ss slot ≡ false
    → on_slot slot (entry ss i) ≡ true
    → is_rw (entry ss i).flags ≡ true
unfolding has_read_only
has_read_only-none [] i slot e here = absurd (ground arith)
has_read_only-none (s ∷ ss) zero slot e here = ground arith
has_read_only-none (s ∷ ss) (suc i) slot e here = has_read_only-none ss i slot (ground arith) here

entry-update_slot :
    (f : Session → Session) (ss : List Session) (i slot : ℕ)
    → entry (update_slot f slot ss) i
      ≡ (if on_slot slot (entry ss i) then f (entry ss i) else entry ss i)
unfolding update_slot
entry-update_slot f [] i slot = ground arith
entry-update_slot f (s ∷ ss) zero slot = refl
entry-update_slot f (s ∷ ss) (suc i) slot = entry-update_slot f ss i slot

session_get-entry :
    (ss : List Session) (j : ℕ) (t : Session)
    → session_get ss j ≡ some t
    → (entry ss (j - 1) ≡ t) × (t.in_use ≡ true)
unfolding session_get
session_get-entry ss j t e = (ground arith, ground arith)

session_get-update_slot :
    (f : Session → Session) (ss ss' : List Session) (j slot : ℕ) (t : Session) (b : Bool)
    → (f t).in_use ≡ t.in_use
    → session_get ss j ≡ some t
    → ss' ≡ update_slot f slot ss
    → on_slot slot t ≡ b
    → session_get ss' j ≡ some (if b then f t else t)
unfolding session_get
session_get-update_slot f ss ss' j slot t b keeps known left on =
    let (there, used) = session_get-entry ss j t known in
    let now : entry ss' (j - 1) ≡ (if b then f t else t) =
      ap (λ x. entry x (j - 1)) left
      ∙ entry-update_slot f ss (j - 1) slot
      ∙ ap (λ x. if on_slot slot x then f x else x) there
      ∙ ap (λ x. if x then f t else t) on in
    let still : (if b then f t else t).in_use ≡ true = ground (arith, keeps, used) in
    ground (arith, now, still)

-- A successful C_Login logs in all sessions of its slot, and no other: if it succeeds with a handle
-- that gives the session `s`, and a handle gave the session `t` before, then that handle gives `t`
-- unchanged if `t` is on another slot; and if it is on the slot of `s`, `t` had no login, and either
-- the user was CKU_USER, and the handle gives `t` with that login and the user state of its flags,
-- read-write or read-only, or the user was CKU_SO, `t` is read-write, and the handle gives `t` with
-- that login and the security officer's state.
pub login-session_get :
    (g : Library) (h user j : ℕ) (s t : Session)
    → (login h user g).0 ≡ ok tt
    → session_get g.sessions h ≡ some s
    → session_get g.sessions j ≡ some t
    → let now = session_get (login h user g).1.sessions j in
      ((t.slot_id ≢ s.slot_id) × (now ≡ some t))
      ⊎ ((t.slot_id ≡ s.slot_id)
          × (t.logged_in ≡ 0)
          × (((user ≡ cku_user)
                × (now
                    ≡ some (record t {
                      logged_in = 1;
                      state = (if is_rw t.flags then rw_user_functions else ro_user_functions);
                    })))
              ⊎ ((user ≡ cku_so)
                  × (is_rw t.flags ≡ true)
                  × (now ≡ some (record t { logged_in = 2; state = rw_so_functions })))))
unfolding log_in_user log_in_so
login-session_get g h user j s t done known given =
    let (s', known', free, way) = login_ok g h user done in
    let same : s' ≡ s = ground (arith, known, known') in
    let slot_is : s'.slot_id ≡ s.slot_id = ap (λ x. x.slot_id) same in
    let (there, used) = session_get-entry g.sessions j t given in
    let ss = g.sessions in
    let slot = s'.slot_id in
    let ss' = (login h user g).1.sessions in
    elim (Bool-cases (on_slot slot t)) [
      | inr other ↦ inl (
        (λ here. ground (arith, other, slot_is, used)),
        elim way [
          | inl (as_user, left) ↦
              session_get-update_slot log_in_user ss ss' j slot t false refl given left other
          | inr (as_so, none_ro, left) ↦
              session_get-update_slot log_in_so ss ss' j slot t false refl given left other
        ],
      )
      | inl here ↦
          let at : on_slot slot (entry ss (j - 1)) ≡ true = ap (on_slot slot) there ∙ here in
          inr (
            ground (arith, here, slot_is),
            ap (λ x. x.logged_in) (sym there) ∙ slot_login-none ss (j - 1) slot free at,
            elim way [
              | inl (as_user, left) ↦ inl (
                as_user,
                session_get-update_slot log_in_user ss ss' j slot t true refl given left here,
              )
              | inr (as_so, none_ro, left) ↦ inr (
                as_so,
                ap (λ x. is_rw x.flags) (sym there) ∙ has_read_only-none ss (j - 1) slot none_ro at,
                session_get-update_slot log_in_so ss ss' j slot t true refl given left here,
              )
            ],
          )
    ]
