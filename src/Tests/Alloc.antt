-- ===== src/Tests/Alloc.antt =====
-- The theorem about src/l2dbus_alloc.c at an array of one string.
use l2dbus.Alloc.{free_string_array}
use l2dbus.Alloc.Strings.{free_string_array-twice}
use l2dbus.Base.{◌≡◌, refl, true, some, [], ◌∷◌, undefined, Fault}
use l2dbus.Tests.Memory.{blocks, blocks-MemoryLaws}

free_string_array-twice_example :
    free_string_array blocks 2 (some (1, λ i. some 0)) (true ∷ true ∷ [])
    ≡ undefined Fault.double_free
free_string_array-twice_example =
    free_string_array-twice blocks blocks-MemoryLaws 0 1 0 (λ i. some 0) (true ∷ true ∷ []) refl
      refl
