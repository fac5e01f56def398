-- ===== src/Alloc.antt =====
-- src/l2dbus_alloc.c: memory of the program, over the allocator of libdbus.
pub mod Owns
pub mod Strings
use l2dbus.Base.{
  ℕ, zero, suc, ◌+◌, ◌*◌, ◌%◌, ◌^◌, Bool, true, false, Option, none, some, if◌then◌else◌, ◌≡◌,
  Result, ok, undefined, out_of_fuel, Fault, ◌>>=◌, ◌==◌, ◌≢◌, length,
}
use l2dbus.Lua.{Bytes}

-- dbus_malloc and dbus_free: which addresses are allocated. An allocation may fail.
pub record Memory : Type 1 where
  pub Heap : Type 0
  pub alloc : Heap → (size : ℕ) → Heap × Option ℕ
  pub free : Heap → ℕ → Heap
  pub live : Heap → ℕ → Bool

abbrev pub one : ℕ → ℕ → ℕ
one p a = if a == p then 1 else 0

abbrev pub one_of : Option ℕ → ℕ → ℕ
one_of none a = 0
one_of (some p) a = one p a

abbrev pub count_live : Bool → ℕ
count_live true = 1
count_live false = 0

-- What the documentation of libdbus says of them. An allocation that fails changes nothing.
pub record MemoryLaws (M : Memory) : Type 0 where
  pub live-alloc :
      (h : M.Heap) (size a : ℕ)
      → count_live (M.live (M.alloc h size).0 a)
        ≡ one_of (M.alloc h size).1 a + count_live (M.live h a)
  pub live-free : (h : M.Heap) (p : ℕ) → M.live (M.free h p) p ≡ false
  pub live-free_other : (h : M.Heap) (p a : ℕ) → a ≢ p → M.live (M.free h p) a ≡ M.live h a

-- A string in the program's memory.
pub record Pointer : Type 0 where
  pub address : ℕ
  pub text : Bytes

abbrev pub address_of : Option Pointer → Option ℕ
address_of none = none
address_of (some p) = some p.address

abbrev pub text_at : Bytes → Option ℕ → Option Pointer
text_at s none = none
text_at s (some a) = some (record { address = a; text = s })

module _ (M : Memory) where
  open M use {Heap, alloc, free, live}

  unfoldable pub dbus_alloc : ℕ → Heap → Heap × Option ℕ
  dbus_alloc size h = alloc h size

  -- The product is a `size_t`.
  unfoldable pub dbus_calloc : (n size : ℕ) → Heap → Heap × Option ℕ
  dbus_calloc n size h = alloc h (n * size % 2 ^ 64)

  unfoldable pub dbus_free : Option ℕ → Heap → Result Heap
  dbus_free none h = ok h
  dbus_free (some p) h = if live h p then ok (free h p) else undefined Fault.double_free

  -- The argument is not NULL where this is called; the copy has room for the terminating zero.
  unfoldable pub str_dup : Bytes → Heap → Heap × Option Pointer
  unfolding dbus_alloc
  str_dup s h = let (h', p) = dbus_alloc (length s + 1) h in (h', text_at s p)

  -- The loop looks at the first string each time.
  unfoldable pub free_strings : ℕ → (strings : ℕ → Option ℕ) → Heap → Result Heap
  unfolding dbus_free
  free_strings zero strings h = out_of_fuel
  free_strings (suc fuel) strings h = elim (strings 0) [
    | none ↦ ok h
    | some p ↦ dbus_free (some p) h >>= λ h'. free_strings fuel strings h'
  ]

  unfoldable pub free_string_array : ℕ → Option (ℕ × (ℕ → Option ℕ)) → Heap → Result Heap
  unfolding free_strings
  free_string_array fuel none h = ok h
  free_string_array fuel (some (array, strings)) h = do
    h' ← free_strings fuel strings h
    dbus_free (some array) h'
