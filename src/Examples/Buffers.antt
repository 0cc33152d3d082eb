-- ===== src/Examples/Buffers.antt =====
-- The life of a buffer that holds a secret.
use beacon_node.Base.{ℕ, [], ◌∷◌, ◌≡◌, All, refl, arith, none, some, List, length}
use beacon_node.SecureBuffer.{SecureBuffer, resize}
use beacon_node.SecureBuffer.Wiping.{
  Use, write, resize_to, assigned, lifetime, IsWiped, lifetime-IsWiped,
}
use beacon_node.Examples.Data.{zeros, length-zeros}

abbrev secret : SecureBuffer
secret = record { block = some (7 ∷ 8 ∷ 9 ∷ []); size = 3 }

abbrev other_secret : SecureBuffer
other_secret = record { block = some (5 ∷ 6 ∷ []); size = 2 }

abbrev uses : List Use
uses = write 1 42 ∷ resize_to 5 ∷ resize_to 5 ∷ assigned other_secret ∷ []

lifetime-IsWiped_example : All IsWiped (lifetime zeros none secret uses)
lifetime-IsWiped_example =
    lifetime-IsWiped zeros none length-zeros tt secret uses (record { owns = (refl, omega arith) })
      (tt, (tt, (tt, (record { owns = (refl, omega arith) }, tt))))

freed_three : ◌≡◌ {A = ℕ} (length (lifetime zeros none secret uses)) 3
unfolding lifetime resize
freed_three = refl
