-- ===== src/Sending/Destinations.antt =====
-- Equality of destinations, which are the keys of the map of statuses.
use cinquain.Prelude.{◌≡◌, ◌↔◌, Bool, true, false, ◌&&◌, Eq, ◌==◌, arith}
use cinquain.Core.Bytes.{bytes_eq, bytes_beq_iff}
use cinquain.Sending.Keys.{Destination, appservice, push, federation}

abbrev pub destination_beq : Destination → Destination → Bool
destination_beq (appservice a) (appservice b) = a == b
destination_beq (push a k) (push b l) = a == b && k == l
destination_beq (federation a) (federation b) = a == b
destination_beq _ _ = false

pub destination_beq_iff : (a b : Destination) → (destination_beq a b ≡ true) ↔ (a ≡ b)
destination_beq_iff (appservice a) (appservice b) = ground (arith, bytes_beq_iff a b)
destination_beq_iff (appservice a) (push b l) = ground arith
destination_beq_iff (appservice a) (federation b) = ground arith
destination_beq_iff (push a k) (appservice b) = ground arith
destination_beq_iff (push a k) (push b l) = ground (arith, bytes_beq_iff a b, bytes_beq_iff k l)
destination_beq_iff (push a k) (federation b) = ground arith
destination_beq_iff (federation a) (appservice b) = ground arith
destination_beq_iff (federation a) (push b l) = ground arith
destination_beq_iff (federation a) (federation b) = ground (arith, bytes_beq_iff a b)

instance abbrev pub destination_eq : Eq Destination
destination_eq = record { beq = destination_beq; beq_iff = destination_beq_iff }
