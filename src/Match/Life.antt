-- ===== src/Match/Life.antt =====
-- A match from its registration to its disposal (src/l2dbus_match.c).
use l2dbus.Alloc.{Memory, MemoryLaws, one_of, count_live, dbus_calloc}
use l2dbus.Alloc.Owns.{Owns, Owns-alloc, Owns-free}
use l2dbus.Base.{
  ℕ, false, ◌+◌, ◌*◌, ◌^◌, ◌%◌, ◌==◌, ◌≡◌, refl, Bool, Option-cases, inl, inr, Option, none, some,
  ok, arith, if◌then◌else◌,
}
use l2dbus.Base.Int.{ℤ}
use l2dbus.Callback.{callback_ref, callback_unref, slot}
use l2dbus.Lua.{Lua}
use l2dbus.Lua.Refs.{Refs, RefsLaws}
use l2dbus.Lua.Slots.{Slot, Slot-take, Slot-take_other}
use l2dbus.Source.Anchors.{Slot-slot}
use l2dbus.Match.{
  MatchUd, Connections, Message, State, leave, register_match, new_match, dispose_match,
  rule_raises,
}
use l2dbus.Match.Owns.{
  of_rule, IsFreeable, parse_rule-Owns, parse_rule-IsFreeable, match_free_rule-Owns,
}
use l2dbus.Match.Rule.{MatchRule, Reason, parse_rule}
use l2dbus.Userdata.{to_ref, optional_ref}

module _ (L : Lua) (R : Refs L.Value) (refs_laws : RefsLaws L.Value R) (M : Memory)
    (laws : MemoryLaws M) (C : Connections) where
  open L use {Value, touserdata}

  -- What a call that returns `result` with the state `s'` does to the memory of `s`.
  abbrev pub Takes : (s s' : State L R M C) → Option ℕ → Type 0
  Takes s s' result =
      (a : ℕ) → count_live (M.live s'.heap a) ≡ one_of result a + count_live (M.live s.heap a)

  -- A match that is returned anchors its connection and its handler.
  abbrev pub Registered : (func conn : Value) → State L R M C → Option ℕ → Type 0
  Registered func conn s none = Unit {0}
  Registered func conn s (some match) =
      (ud : MatchUd) × (s.matches match ≡ some ud)
      × (R.anchored s.refs ud.conn_ref ≡ to_ref L conn)
      × (R.anchored s.refs ud.cb.func_ref ≡ to_ref L func)

  leave-Takes :
      (h₀ : M.Heap) (asked : Bool) (rule : MatchRule) (result : Option ℕ) (reason : Option Reason)
      (s : State L R M C)
      → IsFreeable rule.filter_args
      → Owns M h₀ s.heap (λ a. of_rule rule a + one_of result a)
      → (h : M.Heap) × (leave L R M C (some asked) rule result none reason s
          ≡ ok (record s { heap = h }, (result, if asked then some reason else none)))
        × Owns M h₀ h (one_of result)
  unfolding leave
  leave-Takes h₀ asked rule result reason s i o =
      let (h1, e1, o1) = match_free_rule-Owns L M laws h₀ rule s.heap (one_of result) i o in
      (h1, rw e1 refl, o1)

  callback_ref-anchored :
      (t : R.Table) (func : Value) (user : Option Value) (r : ℤ) (v : Option Value)
      → R.IsSound t
      → Slot R t r v
      → let (t', ctx) = callback_ref Value R t (some (to_ref L func)) (optional_ref L user) in
        (R.anchored t' r ≡ v) × (R.anchored t' ctx.func_ref ≡ to_ref L func)
  unfolding callback_ref slot
  callback_ref-anchored t func user r v sound h =
      let sound1 = refs_laws.take-IsSound t (to_ref L func) sound in
      let t1 = (R.take t (to_ref L func)).0 in
      let old =
        Slot-slot R refs_laws t1 (optional_ref L user) r v sound1
          (Slot-take_other R refs_laws t (to_ref L func) r v sound h) in
      let new =
        Slot-slot R refs_laws t1 (optional_ref L user) _ _ sound1
          (Slot-take R refs_laws t (to_ref L func)) in
      (old.holds, new.holds)

  -- libcdbus registers every rule.
  abbrev pub Registers : Type 0
  Registers =
      (w : C.World) (connection match : ℕ) (rule : MatchRule)
      → (hnd : ℕ) × ((C.register w connection match rule).1 ≡ some hnd)

  register_match-Takes :
      (s₀ : State L R M C) (asked : Bool) (rule : MatchRule) (func conn : Value)
      (user : Option Value) (match : ℕ) (s : State L R M C) (connection : ℕ)
      → R.IsSound s.refs
      → Registers
      → touserdata conn ≡ some connection
      → IsFreeable rule.filter_args
      → Owns M s₀.heap s.heap (λ a. one_of (some match) a + of_rule rule a)
      → (s' : State L R M C) × (result : Option ℕ) × (message : Message) × (register_match L R M C
            (some asked)
            rule
            func
            conn
            user
            match
            s
          ≡ ok (s', (result, message)))
        × Takes s₀ s' result
        × Registered func conn s' result
  unfolding register_match
  register_match-Takes s₀ asked rule func conn user match s connection sound registers ec i o =
      let (hnd, e) = registers s.world connection match rule in
      let (t, conn_ref) = R.take s.refs (to_ref L conn) in
      let (t', ctx) = callback_ref Value R t (some (to_ref L func)) (optional_ref L user) in
      let ud : MatchUd = record { conn_ref = conn_ref; cb = ctx; match_hnd = hnd } in
      let s1 : State L R M C = record s {
        refs = t';
        world = (C.register s.world connection match rule).0;
        matches = λ p. if p == match then some ud else s.matches p;
      } in
      let (h, eq, o') =
        leave-Takes s₀.heap asked rule (some match) none s1 i (λ a. omega (arith, o a)) in
      let (ec', ef) =
        callback_ref-anchored t func user conn_ref (to_ref L conn)
          (refs_laws.take-IsSound s.refs (to_ref L conn) sound)
          (Slot-take R refs_laws s.refs (to_ref L conn)) in
      (
        record s1 { heap = h },
        some match,
        if asked then some none else none,
        rw (register_match, ec, e) eq,
        o',
        (ud, ground arith, ec', ef),
      )

  -- Where libcdbus registers every rule, no metamethod raises an error and the connection is a userdata: a
  -- match is created, or it is not, without undefined behaviour. Of the memory that the call takes only the match object stays, and nothing if no match is returned.
  pub new_match-Takes :
      (asked : Bool) (table func conn : Value) (user : Option Value) (s : State L R M C)
      (connection : ℕ)
      → R.IsSound s.refs
      → Registers
      → rule_raises L R M C table s ≡ false
      → touserdata conn ≡ some connection
      → (s' : State L R M C) × (result : Option ℕ) × (message : Message) × (new_match L R M C
            (some asked)
            table
            func
            conn
            user
            s
          ≡ ok (s', (result, message)))
        × Takes s s' result
        × Registered func conn s' result
  unfolding new_match dbus_calloc
  new_match-Takes asked table func conn user s connection sound registers quiet ec =
      let (h, (rule, failed)) = parse_rule L M C.to_arg_n C.filter_size table s.heap in
      let i : IsFreeable rule.filter_args =
        parse_rule-IsFreeable L M laws s.heap C.to_arg_n C.filter_size table s.heap in
      let o : Owns M s.heap h (of_rule rule) =
        parse_rule-Owns L M laws s.heap C.to_arg_n C.filter_size table s.heap (λ a. omega arith) in
      let size = 1 * C.match_size % 2 ^ 64 in
      elim (Option-cases failed) [
        | inr (reason, e) ↦
            let s1 : State L R M C = record s { heap = h } in
            let (h', eq, o') =
              leave-Takes s.heap asked rule none (some reason) s1 i (λ a. omega (arith, o a)) in
            (
              record s1 { heap = h' },
              none,
              if asked then some (some reason) else none,
              rw (new_match, quiet, e) eq,
              o',
              tt,
            )
        | inl e ↦
            let s1 : State L R M C = record s { heap = (M.alloc h size).0 } in
            let o1 : Owns M s.heap s1.heap (λ a. one_of (M.alloc h size).1 a + of_rule rule a) =
              Owns-alloc M laws s.heap size h (of_rule rule) o in
            elim (Option-cases (M.alloc h size).1) [
              | inl e' ↦
                  let reason : Option Reason = some Reason.no_memory_for_match in
                  let o2 : Owns M s.heap s1.heap (λ a. of_rule rule a) =
                    λ a. let q = rw e' at (o1 a) in omega (arith, q) in
                  let (h', eq, o') =
                    leave-Takes s.heap asked rule none reason s1 i (λ a. omega (arith, o2 a)) in
                  (
                    record s1 { heap = h' },
                    none,
                    if asked then some reason else none,
                    rw (new_match, quiet, e, dbus_calloc, e') eq,
                    o',
                    tt,
                  )
              | inr (match, e') ↦
                  let (s', result, message, eq, taken, kept) =
                    register_match-Takes s asked rule func conn user match s1 connection sound
                      registers ec i (λ a. rw e' at (o1 a)) in
                  (s', result, message, rw (new_match, quiet, e, dbus_calloc, e') eq, taken, kept)
            ]
      ]

  dispose_match-Takes :
      (s s' : State L R M C) (result : Option ℕ) (func conn : Value) (connection : ℕ)
      → touserdata conn ≡ some connection
      → to_ref L conn ≡ some conn
      → Takes s s' result
      → Registered func conn s' result
      → (s'' : State L R M C) × (dispose_match L R M C result s' ≡ ok s'') × Takes s s'' none
  unfolding dispose_match
  dispose_match-Takes s s' none func conn connection ec er taken kept = (s', refl, taken)
  dispose_match-Takes s s' (some match) func conn connection ec er taken
        (ud, stored, anchored, other) =
      let (h, eq, o) =
        Owns-free M laws s.heap (some match) s'.heap (λ a. 0) (λ a. omega (arith, taken a)) in
      (
        record s' {
          heap = h;
          refs = R.release (callback_unref Value R s'.refs ud.cb) ud.conn_ref;
          matches = λ p. if p == match then none else s'.matches p;
          world = (C.unregister s'.world connection ud.match_hnd).0;
        },
        rw (dispose_match, stored, anchored, er, ec, eq) refl,
        λ a. omega (arith, o a),
      )

  same_live : (b c : Bool) → count_live b ≡ 0 + count_live c → b ≡ c
  same_live b c e = ground arith

  -- Where no reference was given back that was not in use, the pointer to the message is not NULL, libcdbus
  -- registers every rule, no metamethod raises an error while the rule is read and the connection is a
  -- userdata, whatever else the rule is and whether there is memory: the call ends without undefined
  -- behaviour, and disposing of what it returns leaves the memory as it was, also where no match is
  -- returned.
  pub dispose_match-new_match :
      (asked : Bool) (table func conn : Value) (user : Option Value) (s : State L R M C)
      (connection : ℕ)
      → R.IsSound s.refs
      → Registers
      → rule_raises L R M C table s ≡ false
      → touserdata conn ≡ some connection
      → to_ref L conn ≡ some conn
      → (s' : State L R M C) × (result : Option ℕ) × (message : Message) × (s'' : State L R M C)
        × (new_match L R M C (some asked) table func conn user s ≡ ok (s', (result, message)))
        × (dispose_match L R M C result s' ≡ ok s'')
        × ((a : ℕ) → M.live s''.heap a ≡ M.live s.heap a)
  dispose_match-new_match asked table func conn user s connection sound registers quiet ec er =
      let (s', result, message, eq, taken, kept) =
        new_match-Takes asked table func conn user s connection sound registers quiet ec in
      let (s'', eq', same) =
        dispose_match-Takes s s' result func conn connection ec er taken kept in
      (s', result, message, s'', eq, eq', λ a. same_live _ _ (same a))
