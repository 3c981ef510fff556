-- ===== src/Network/Server/Invariant/OfVariables.antt =====
-- The operations on monitor variables keep the invariant.
use project.Prelude.{
  ℕ, ◌≡◌, List, length, length-set, length-replicate, ℤ, pos, negsuc, Holds, arith, some, none, inl,
  inr, Result-cases, slot, slot-AllLive, set_slot, set_slot-AllLive, delete_slot-AllLive,
  push-AllLive,
}
use project.Network.Server.State.{Server, ServerMv}
use project.Network.Server.Variables.{
  find_mv, new_mv, push_mv, create_mv, write_value, set_mv, destroy_mv,
}
use project.Network.Server.Invariant.Defs.{Inv, MvInv}

push_mv-Inv : (name : List ℕ) (n : ℤ) (s : Server) → Inv s → Holds (λ x. Inv x.1) (push_mv name n s)
unfolding push_mv new_mv
push_mv-Inv name (pos n) s v = record {
  locks = v.locks;
  cvs = v.cvs;
  mvs = push-AllLive MvInv _ s.mvs v.mvs (length-replicate n (pos 0));
}
push_mv-Inv name (negsuc n) s v = tt

pub create_mv-Inv :
    (name : List ℕ) (n : ℤ) (s : Server) → Inv s → Holds (λ x. Inv x.1) (create_mv name n s)
unfolding create_mv
create_mv-Inv name n s v = elim (Result-cases (find_mv name 0 s.mvs)) [
  | inl (none, e) ↦ rw (e, create_mv) (push_mv-Inv name n s v)
  | inl (some i, e) ↦ rw (e, create_mv) v
  | inr (f, e) ↦ ground arith
]

write_value-length :
    (i v : ℤ) (vs : List ℤ) → Holds (λ us. length us ≡ length vs) (write_value i v vs)
unfolding write_value
write_value-length (pos i) v vs = ground (arith, length-set vs i v)
write_value-length (negsuc i) v vs = tt

put_mv-Inv :
    (i : ℤ) (m : ServerMv) (s : Server)
    → Inv s
    → MvInv m
    → Inv (record s { mvs = set_slot i (some m) s.mvs })
put_mv-Inv i m s v h = record {
  locks = v.locks;
  cvs = v.cvs;
  mvs = set_slot-AllLive MvInv i m s.mvs v.mvs h;
}

pub set_mv-Inv : (i j x : ℤ) (s : Server) → Inv s → Holds Inv (set_mv i j x s)
unfolding set_mv
set_mv-Inv i j x s v = elim (Result-cases (slot i s.mvs)) [
  | inl (m, e) ↦ elim (Result-cases (write_value j x m.values)) [
    | inl (vs, ew) ↦ ground (
      arith,
      slot-AllLive MvInv i s.mvs v.mvs,
      write_value-length j x m.values,
      put_mv-Inv i (record m { values = vs }) s v,
    )
    | inr (f, ew) ↦ ground arith
  ]
  | inr (f, e) ↦ ground arith
]

pub destroy_mv-Inv : (i : ℤ) (s : Server) → Inv s → Holds Inv (destroy_mv i s)
unfolding destroy_mv
destroy_mv-Inv i s v =
    let rest : Inv (record s { mvs = set_slot i none s.mvs }) = record {
      locks = v.locks;
      cvs = v.cvs;
      mvs = delete_slot-AllLive MvInv i s.mvs v.mvs;
    } in
    ground (arith, rest)
