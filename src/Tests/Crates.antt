-- ===== src/Tests/Crates.antt =====
-- The crates' interfaces, met by small concrete implementations.
use Prim.Native.Nat.{ℕ, ◌%◌}
use smux.Base.{
  ◌≡◌, refl, Bool, true, false, ◌&&◌, Option, none, some, List, [], ◌∷◌, ◌++◌, take, drop, length,
  ltb, ◌==◌, if◌then◌else◌, arith,
}
use smux.Crates.Bytes.{BytesCrate, le16, le32, bytes16, bytes32}
use smux.Crates.Flume.{Flume, TrySend, TryRecv, send_result, recv_result, tail}
use smux.Crates.DashMap.{DashMap, is_some}

abbrev take_u8 : List ℕ → ℕ × List ℕ
take_u8 [] = (0, [])
take_u8 (a ∷ rest) = (a, rest)

abbrev take_u16 : List ℕ → ℕ × List ℕ
take_u16 (a ∷ b ∷ rest) = (le16 a b, rest)
take_u16 _ = (0, [])

abbrev take_u32 : List ℕ → ℕ × List ℕ
take_u32 (a ∷ b ∷ c ∷ d ∷ rest) = (le32 a b c d, rest)
take_u32 _ = (0, [])

abbrev pub bytes_crate : BytesCrate
bytes_crate = record {
  get_u8 = take_u8;
  get_u16_le = take_u16;
  get_u32_le = take_u32;
  split_to = λ src n. (take n src, drop n src);
  put_u8 = λ dst n. dst ++ (n % 256 ∷ []);
  put_u16_le = λ dst n. dst ++ bytes16 n;
  put_u32_le = λ dst n. dst ++ bytes32 n;
  put_slice = λ dst xs. dst ++ xs;
  get_u8_lem = λ a rest. refl;
  get_u16_le_lem = λ a b rest. refl;
  get_u32_le_lem = λ a b c d rest. refl;
  split_to_lem = λ src n h. refl;
  put_u8_lem = λ dst n. refl;
  put_u16_le_lem = λ dst n. refl;
  put_u32_le_lem = λ dst n. refl;
  put_slice_lem = λ dst xs. refl;
}

-- A queue with its two ends, and its capacity, if it has one.
pub record Queue (A : Type 0) : Type 0 where
  pub items : List A
  pub tx : Bool
  pub rx : Bool
  pub limit : Option ℕ

abbrev room : {A : Type 0} → Option ℕ → List A → Bool
room none items = true
room (some n) items = ltb (length items) n

abbrev no_limit : Option ℕ → Bool
no_limit none = true
no_limit (some n) = false

abbrev offer : {A : Type 0} → Queue A → A → TrySend × Queue A
offer c a = (
  send_result c.rx (room c.limit c.items),
  record c { items = if c.rx && room c.limit c.items then c.items ++ (a ∷ []) else c.items },
)

abbrev poll : {A : Type 0} → Queue A → TryRecv A × Queue A
poll c = (recv_result c.items c.tx, record c { items = tail c.items })

pub room_lem : {A : Type 0} (c : Queue A) → no_limit c.limit ≡ true → room c.limit c.items ≡ true
room_lem c h = ground arith

abbrev pub flume : Flume
flume = record {
  Chan = Queue;
  queue = λ c. c.items;
  sending = λ c. c.tx;
  receiving = λ c. c.rx;
  has_room = λ c. room c.limit c.items;
  bounded = λ n. record { items = []; tx = true; rx = true; limit = some n };
  unbounded = record { items = []; tx = true; rx = true; limit = none };
  is_unbounded = λ c. no_limit c.limit;
  try_send = offer;
  try_recv = poll;
  close_tx = λ c. record c { tx = false };
  close_rx = λ c. record c { rx = false };
  bounded_new = λ n. (refl, refl, refl);
  unbounded_new = λ A. (refl, refl, refl, refl);
  unbounded-has_room = λ c h. room_lem c h;
  try_send_lem = λ c a. (refl, refl, refl, refl, refl);
  try_recv_lem = λ c. (refl, refl, refl, refl, refl);
  close_tx_lem = λ c. (refl, refl, refl);
  is_unbounded-close_tx = λ c. refl;
  close_rx_lem = λ c. refl;
}

abbrev pub dash_map : DashMap
dash_map = record {
  Map = λ V. ℕ → Option V;
  new = λ k. none;
  get = λ m k. m k;
  insert = λ m k v j. if k == j then some v else m j;
  remove = λ m k. (m k, λ j. if k == j then none else m j);
  contains_key = λ m k. is_some (m k);
  get-new = λ V k. refl;
  get-insert = λ m k j v. refl;
  remove_lem = λ m k j. (refl, refl);
  contains_key_lem = λ m k. refl;
}
