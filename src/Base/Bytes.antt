-- ===== src/Base/Bytes.antt =====
-- Go strings as sequences of bytes, and their equality.
use Prim.Native.Nat.{ℕ}
use mathlib.Core.Path.{◌≡◌, refl}
use mathlib.Core.Logic.{◌↔◌}
use mathlib.Core.Bool.{Bool, true, false, ◌&&◌}
use mathlib.Core.List.{List, [], ◌∷◌}
use native.Mathlib.Omega.{arith}
use go_tools.Base.Tests.{◌==◌}
use go_tools.Base.Keys.{Eq}

abbrev pub Bytes : Type 0
Bytes = List ℕ

abbrev pub bytes_beq : Bytes → Bytes → Bool
bytes_beq [] [] = true
bytes_beq [] (b ∷ t) = false
bytes_beq (a ∷ s) [] = false
bytes_beq (a ∷ s) (b ∷ t) = a == b && bytes_beq s t

pub bytes_beq_sound : (s t : Bytes) → bytes_beq s t ≡ true → s ≡ t
bytes_beq_sound [] [] h = refl
bytes_beq_sound [] (b ∷ t) h = absurd (cc)
bytes_beq_sound (a ∷ s) [] h = absurd (cc)
bytes_beq_sound (a ∷ s) (b ∷ t) h = ground (arith, bytes_beq_sound s t)

pub bytes_beq_refl : (s : Bytes) → bytes_beq s s ≡ true
bytes_beq_refl [] = refl
bytes_beq_refl (a ∷ s) = ground (arith, bytes_beq_refl s)

pub bytes_beq_iff : (s t : Bytes) → (bytes_beq s t ≡ true) ↔ (s ≡ t)
bytes_beq_iff s t = (bytes_beq_sound s t, λ p. rw p (bytes_beq_refl t))

abbrev pub bytes_eq : Eq Bytes
bytes_eq = record { beq = bytes_beq; beq_iff = bytes_beq_iff }
