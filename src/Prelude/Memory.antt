-- ===== src/Prelude/Memory.antt =====
-- C arrays as functions from the index to the element. Reads and writes are total: that the code
-- stays inside its arrays is proved as a frame property of each function, never assumed.
use Prim.Native.Nat.{ℕ, zero, suc, ◌+◌, ◌-◌, ◌<◌}
use mathlib.Core.Path.{◌≡◌}
use mathlib.Core.List.{List, [], ◌∷◌}
use modbus_protocol.Prelude.Tests.{ltb, ◌==◌, if◌then◌else◌}

abbrev pub Buf : Type 0
Buf = ℕ → ℕ

-- `b[i] = v`
abbrev pub store : Buf → ℕ → ℕ → Buf
store b i v j = if j == i then v else b j

-- The pointer `b + k`, for reading.
abbrev pub offset : Buf → ℕ → Buf
offset b k j = b (k + j)

-- The array `b` after a callee was handed the pointer `b + k` and left `c` behind it.
abbrev pub write_back : Buf → ℕ → Buf → Buf
write_back b k c j = if ltb j k then b j else c (j - k)

-- `memset(b + k, v, n)`
abbrev pub fill : Buf → ℕ → ℕ → ℕ → Buf
fill b k n v j = if ltb j k then b j else if ltb j (k + n) then v else b j

-- `memcpy(dst + k, src, n)`
abbrev pub copy : Buf → ℕ → Buf → ℕ → Buf
copy dst k src n j = if ltb j k then dst j else if ltb j (k + n) then src (j - k) else dst j

-- The `n` elements from index `k` on.
abbrev pub slice : Buf → ℕ → ℕ → List ℕ
slice b k zero = []
slice b k (suc n) = b k ∷ slice b (k + 1) n

-- The array that begins with the elements of a list; zeros follow.
abbrev pub of_list : List ℕ → Buf
of_list [] j = 0
of_list (x ∷ xs) zero = x
of_list (x ∷ xs) (suc j) = of_list xs j

-- Two arrays agree on their first `n` elements.
abbrev pub Agree : ℕ → Buf → Buf → Type 0
Agree n a b = (j : ℕ) → j < n → a j ≡ b j

-- An array of `uint8_t`.
abbrev pub HasBytes : Buf → Type 0
HasBytes p = (j : ℕ) → p j < 256
