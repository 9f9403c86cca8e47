-- ===== src/Registry/Effects.antt =====
-- What naming, connecting and disconnecting do to the map, and the effect of every operation.
use haigosmart.Base.{
  ℕ, refl, Option, none, some, arith, if◌then◌else◌, inl, inr, Bool-cases, Option-cases,
}
use haigosmart.Base.Text.{Str, is_empty, trim_space}
use haigosmart.Bulb.{Status, disconnected, discovered, connected, status_eq}
use haigosmart.Registry.{
  Registry, find, adopt, name_owner, declared_entry, declare, rename, set_driver, disconnect,
  is_superseded,
}
use haigosmart.Registry.Operation.{
  Operation, op_upsert, op_declare, op_rename, op_set_state, op_set_desired, op_touch,
  op_set_firmware, op_set_capabilities, op_set_driver, op_disconnect, run, Effect, unchanged,
  written, Moves, stays, declared, attaches, named, configured, drops,
}
use haigosmart.Registry.Fields.{
  rewrites, effect_touch, effect_set_desired, effect_set_state, effect_set_firmware,
  effect_set_capabilities, effect_upsert,
}

module _ (r : Registry) where
  effect_set_driver : (id : Str) (d : ℕ) → Effect r (op_set_driver id d) (set_driver r id d).0
  unfolding set_driver
  effect_set_driver id d = elim (Option-cases (find r id)) [
    | inl e ↦ unchanged (rw (e, set_driver))
    | inr (a, e) ↦
        let o = op_set_driver id d in
        let s = if status_eq a.status disconnected then connected else a.status in
        rewrites r o a (record a { driver = some d; status = s }) _ e
          (record { same_id = refl; name = refl; free = tt; status = up a.status; known = λ k. k })
          (rw (e, set_driver))
  ]
    where
      up :
          (s : Status)
          → Moves (op_set_driver id d) (some s) (if status_eq s disconnected then connected else s)
      up disconnected = attaches id d
      up discovered = stays (op_set_driver id d) discovered
      up connected = stays (op_set_driver id d) connected

  effect_disconnect :
      (id : Str) (who : Option ℕ) → Effect r (op_disconnect id who) (disconnect r id who)
  unfolding disconnect
  effect_disconnect id who = elim (Option-cases (find r id)) [
    | inl e ↦ unchanged (rw (e, disconnect))
    | inr (a, e) ↦ elim (Bool-cases (is_superseded a.driver who)) [
      | inl late ↦ unchanged (rw (e, disconnect) (rw late refl))
      | inr live ↦
          let o = op_disconnect id who in
          let s = if status_eq a.status connected then disconnected else a.status in
          rewrites r o a (record a { driver = none; status = s }) _ e
            (record {
              same_id = refl;
              name = refl;
              free = tt;
              status = down a.status;
              known = λ k. k;
            })
            (rw (e, disconnect) (rw live refl))
    ]
  ]
    where
      down :
          (s : Status)
          → Moves
              (op_disconnect id who)
              (some s)
              (if status_eq s connected then disconnected else s)
      down disconnected = stays (op_disconnect id who) disconnected
      down discovered = stays (op_disconnect id who) discovered
      down connected = drops id who

  effect_rename : (id name : Str) → Effect r (op_rename id name) (rename r id name).0
  unfolding rename
  effect_rename id name = elim (Bool-cases (is_empty (trim_space name))) [
    | inl h ↦ unchanged (rw (h, rename))
    | inr h ↦ elim (Option-cases (find r id)) [
      | inl e ↦ unchanged (rw (h, rename) (rw e refl))
      | inr (a, e) ↦ elim (Option-cases (name_owner r.bulbs id name)) [
        | inr (owner, f) ↦ unchanged (rw (h, rename) (rw e (rw f refl)))
        | inl f ↦
            let o = op_rename id name in
            rewrites r o a (record a { name = name; status = adopt a.status }) _ e
              (record {
                same_id = refl;
                name = refl;
                free = f;
                status = adopts a.status;
                known = λ k. k;
              })
              (rw (h, rename) (rw e (rw f refl)))
      ]
    ]
  ]
    where
      adopts : (s : Status) → Moves (op_rename id name) (some s) (adopt s)
      adopts disconnected = stays (op_rename id name) disconnected
      adopts discovered = named id name
      adopts connected = stays (op_rename id name) connected

  effect_declare : (id name : Str) → Effect r (op_declare id name) (declare r id name).0
  unfolding declare
  effect_declare id name = elim (Bool-cases (is_empty (trim_space id))) [
    | inl g ↦ unchanged (rw (g, declare))
    | inr g ↦ elim (Bool-cases (is_empty (trim_space name))) [
      | inl h ↦ unchanged (rw (g, declare) (rw h refl))
      | inr h ↦ elim (Option-cases (name_owner r.bulbs id name)) [
        | inr (owner, f) ↦ unchanged (rw (g, declare) (rw h (rw f refl)))
        | inl f ↦ elim (Option-cases (find r id)) [
          | inl e ↦
              written (declared_entry id name)
                (rw e (record {
                  same_id = refl;
                  name = refl;
                  free = f;
                  status = declared id name;
                  known = tt;
                }))
                (rw (g, declare) (rw h (rw f (rw e refl))))
          | inr (a, e) ↦
              rewrites r (op_declare id name) a (record a { name = name; status = adopt a.status })
                _ e
                (record {
                  same_id = refl;
                  name = refl;
                  free = f;
                  status = adopts a.status;
                  known = λ k. k;
                })
                (rw (g, declare) (rw h (rw f (rw e (ground arith)))))
        ]
      ]
    ]
  ]
    where
      adopts : (s : Status) → Moves (op_declare id name) (some s) (adopt s)
      adopts disconnected = stays (op_declare id name) disconnected
      adopts discovered = configured id name
      adopts connected = stays (op_declare id name) connected

  -- Every operation leaves the map alone or writes the one entry that its `Change` describes.
  pub effect : (o : Operation) → Effect r o (run r o)
  unfolding run
  effect (op_upsert id addr caps now) = effect_upsert r id addr caps now
  effect (op_declare id name) = effect_declare id name
  effect (op_rename id name) = effect_rename id name
  effect (op_set_state id state now) = effect_set_state r id state now
  effect (op_set_desired id want) = effect_set_desired r id want
  effect (op_touch id now) = effect_touch r id now
  effect (op_set_firmware id version) = effect_set_firmware r id version
  effect (op_set_capabilities id caps) = effect_set_capabilities r id caps
  effect (op_set_driver id d) = effect_set_driver id d
  effect (op_disconnect id who) = effect_disconnect id who
