-- ===== src/Network/Server/Variables.antt =====
-- network/nettest.cc:364-407, the table of monitor variables.
use project.Prelude.{
  ℕ, ◌+◌, List, [], ◌∷◌, ◌++◌, Option, none, some, Bool, false, ℤ, pos, negsuc, minus_one,
  of_unsigned, length, replicate, get_elem?, set, ltb, if◌then◌else◌, Result, ok, fault, dangling,
  overrun, ◌>>=◌, in_table,
}
use project.Network.Server.State.{Server, ServerMv, unique_id, mv_at, put_mv, delete_mv}
use project.Network.Server.Locks.{c_string, same_bytes}

unfoldable pub find_mv : List ℕ → ℕ → List (Option ServerMv) → Result (Option ℕ)
find_mv name i [] = ok none
find_mv name i (none ∷ rest) = fault dangling
find_mv name i (some m ∷ rest) =
    let later = find_mv name (i + 1) rest in
    if same_bytes (c_string name) (c_string m.name) then ok (some i) else later

-- `new ServerMV(size, _name, _id)`: as many zeros. A negative size makes `new int[size]` fail.
unfoldable pub new_mv : ℤ → List ℕ → ℕ → Result ServerMv
new_mv (pos n) name id =
    ok (record { values = replicate n (pos 0); id = id; name = name; num_elements = n })
new_mv (negsuc n) name id = fault overrun

-- What `CreateMV` does for a name that the table lacks.
unfoldable pub push_mv : List ℕ → ℤ → Server → Result (ℤ × Server)
unfolding new_mv
push_mv name num_elements s = do
  let unique = unique_id (length s.mvs) s.server_id
  m ← new_mv num_elements name unique
  ok (of_unsigned unique, record s { mvs = s.mvs ++ some m ∷ [] })

unfoldable pub create_mv : List ℕ → ℤ → Server → Result (ℤ × Server)
unfolding find_mv push_mv
create_mv name num_elements s = do
  found ← find_mv name 0 s.mvs
  elim found [ some i ↦ ok (pos i, s) | none ↦ push_mv name num_elements s ]

-- `arrayIndex > -1 && arrayIndex < arraySize`
abbrev pub in_array : ℤ → ℕ → Bool
in_array (pos i) n = ltb i n
in_array (negsuc i) n = false

-- `values[arrayIndex]`
unfoldable pub read_value : ℤ → List ℤ → Result ℤ
read_value (pos i) vs = elim (get_elem? vs i) [ none ↦ fault overrun | some v ↦ ok v ]
read_value (negsuc i) vs = fault overrun

-- `values[arrayIndex] = value`
unfoldable pub write_value : ℤ → ℤ → List ℤ → Result (List ℤ)
write_value (pos i) v vs = if ltb i (length vs) then ok (set vs i v) else fault overrun
write_value (negsuc i) v vs = fault overrun

unfoldable pub set_mv : ℤ → ℤ → ℤ → Server → Result Server
unfolding write_value
set_mv index array_index value s =
    if in_table index s.mvs
    then (do
      m ← mv_at index s
      if in_array array_index m.num_elements
          then (do
            vs ← write_value array_index value m.values
            ok (put_mv index (record m { values = vs }) s))
          else ok s)
    else ok s

unfoldable pub get_mv : ℤ → ℤ → Server → Result ℤ
unfolding read_value
get_mv index array_index s =
    if in_table index s.mvs
    then (do
      m ← mv_at index s
      if in_array array_index m.num_elements then read_value array_index m.values else ok minus_one)
    else ok minus_one

unfoldable pub destroy_mv : ℤ → Server → Result Server
destroy_mv index s =
    if in_table index s.mvs then (do m ← mv_at index s; ok (delete_mv index s)) else ok s
