-- ===== src/Reassembly/Endpoints.antt =====
-- The key of a stream has no direction.
use cipher_post.Prelude.{ℕ, ◌≡◌, refl, ◌⊎◌, inl, inr, true, false, not, ◌&&◌, [], ◌∷◌, arith, ◌==◌}
use cipher_post.Prelude.Bytes.{Bytes, bytes_eq, bytes_eq_refl, bytes_eq→eq}
use cipher_post.Prelude.Classes.{nat_eq, string_eq}
use cipher_post.Reassembly.Assembler.{key_eq, key_of, Packet, is_from_a, packet_key}
use cipher_post.Prelude.Text.{text_leb}

text_leb_total : (s t : Bytes) → text_leb s t ≡ false → text_leb t s ≡ true
unfolding text_leb
text_leb_total [] t h = cc
text_leb_total (x ∷ s) [] h = refl
text_leb_total (x ∷ s) (y ∷ t) h = ground (arith, text_leb_total s t)

text_leb_antisymm : (s t : Bytes) → text_leb s t ≡ true → text_leb t s ≡ true → s ≡ t
unfolding text_leb
text_leb_antisymm [] [] h k = refl
text_leb_antisymm [] (y ∷ t) h k = cc
text_leb_antisymm (x ∷ s) [] h k = cc
text_leb_antisymm (x ∷ s) (y ∷ t) h k = ground (arith, text_leb_antisymm s t)

bytes_eq_comm : (s t : Bytes) → bytes_eq s t ≡ bytes_eq t s
unfolding bytes_eq
bytes_eq_comm [] [] = refl
bytes_eq_comm [] (y ∷ t) = refl
bytes_eq_comm (x ∷ s) [] = refl
bytes_eq_comm (x ∷ s) (y ∷ t) = ground (arith, bytes_eq_comm s t)

-- Both directions of a conversation have one key.
pub key_of_comm :
    (ip1 : Bytes) (p1 : ℕ) (ip2 : Bytes) (p2 : ℕ) → key_of ip1 p1 ip2 p2 ≡ key_of ip2 p2 ip1 p1
unfolding key_of
key_of_comm ip1 p1 ip2 p2 = ground (
  arith,
  bytes_eq_comm ip1 ip2,
  bytes_eq→eq ip1 ip2,
  text_leb_total ip1 ip2,
  text_leb_antisymm ip1 ip2,
  bytes_eq_refl ip1,
)

-- The packet that goes the other way, whatever it carries.
abbrev pub Answers : Packet → Packet → Type 0
Answers p q = (q.src ≡ p.dst) × (q.sport ≡ p.dport) × (q.dst ≡ p.src) × (q.dport ≡ p.sport)

from_a_split :
    (p : Packet)
    → (bytes_eq p.src p.dst && p.sport == p.dport ≡ true)
      ⊎ (is_from_a p (packet_key p)
          ≡ not (bytes_eq p.dst (packet_key p).ip_a && p.dport == (packet_key p).port_a))
unfolding is_from_a key_of
from_a_split p = ground (arith, bytes_eq_refl p.src, bytes_eq_refl p.dst, bytes_eq_comm p.src p.dst)

-- A packet and one that goes the other way belong to one stream, and of the two exactly one is
-- taken to come from the A side, unless a host talks to itself on one port.
pub is_from_a-Answers :
    (p q : Packet)
    → Answers p q
    → (packet_key p ≡ packet_key q)
      × ((bytes_eq p.src p.dst && p.sport == p.dport ≡ true)
          ⊎ (is_from_a p (packet_key p) ≡ not (is_from_a q (packet_key q))))
is_from_a-Answers p q (a, b, c, d) = (
  same,
  elim (from_a_split p) [
    | inl e ↦ inl e
    | inr e ↦ inr (rw (← same) (unfold is_from_a in rw (a, b) (unfold is_from_a in e)))
  ],
)
  where
    same : packet_key p ≡ packet_key q
    same = rw (a, b, c, d) (key_of_comm p.src p.sport p.dst p.dport)
