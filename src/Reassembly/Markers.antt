-- ===== src/Reassembly/Markers.antt =====
-- Which banner and command markers can occur in the text that `detect_protocol` searches.
use cipher_post.Prelude.{
  ℕ, suc, ◌≡◌, refl, Bool, true, false, ◌&&◌, ◌||◌, none, List, [], ◌∷◌, ◌++◌, map, arith, leb,
  take,
}
use cipher_post.Prelude.Bytes.{Bytes, codes}
use cipher_post.Prelude.Bytes.{starts_with, find_at, find, contains, upper_byte}
use cipher_post.Prelude.Classes.{nat_eq, string_eq}
use cipher_post.Reassembly.Session.{
  Protocol, smtp, imap, pop3, first_match, banner_markers, command_markers, upper, probe_of,
}

-- An ASCII letter in lower case stands in `sub`.
has_lower : Bytes → Bool
has_lower [] = false
has_lower (x ∷ sub) = (leb b'a' x && leb x b'z') || has_lower sub

starts_with-upper :
    (sub bs : Bytes) → has_lower sub ≡ true → starts_with sub (map upper_byte bs) ≡ false
unfolding has_lower starts_with upper_byte
starts_with-upper [] bs h = cc
starts_with-upper (x ∷ sub) [] h = refl
starts_with-upper (x ∷ sub) (y ∷ bs) h = ground (arith, starts_with-upper sub bs)

find_at-upper :
    (sub bs : Bytes) (pos : ℕ) → has_lower sub ≡ true → find_at sub pos (map upper_byte bs) ≡ none
unfolding find_at
find_at-upper sub [] pos h = rw (starts_with-upper sub [] h)
find_at-upper sub (b ∷ bs) pos h =
    rw (starts_with-upper sub (b ∷ bs) h) (find_at-upper sub bs (suc pos) h)

-- No text in upper case holds a marker that has a letter in lower case.
contains-upper : (sub bs : Bytes) → has_lower sub ≡ true → contains sub (upper bs) ≡ false
unfolding contains find upper
contains-upper sub bs h = rw (find_at-upper sub bs 0 h, contains)

-- The markers without `b"Dovecot"` and `b"a001"`.
abbrev pub live_banners : List (Bytes × Protocol)
live_banners = (codes "ESMTP", smtp) ∷ (codes "IMAP4", imap) ∷ (codes "+OK", pop3) ∷ []

abbrev pub live_commands : List (Bytes × Protocol)
live_commands =
    (codes "EHLO", smtp)
    ∷ (codes "MAIL FROM", smtp)
    ∷ (codes "LOGIN", imap)
    ∷ (codes "USER", pop3)
    ∷ (codes "PASS", pop3)
    ∷ []

-- The markers `b"Dovecot"` and `b"a001"` decide no session: both texts are searched in upper case,
-- and the outcome of both searches is that of the lists without the two.
pub first_match-live :
    (client_stream server_stream : Bytes)
    → (first_match banner_markers (probe_of client_stream server_stream)
        ≡ first_match live_banners (probe_of client_stream server_stream))
      × (first_match command_markers (upper (take 4096 client_stream))
          ≡ first_match live_commands (upper (take 4096 client_stream)))
unfolding first_match probe_of
first_match-live c s = (
  rw (contains-upper (codes "Dovecot") (take 4096 s ++ 0 ∷ take 4096 c) (unfold has_lower in refl)),
  rw (contains-upper (codes "a001") (take 4096 c) (unfold has_lower in refl)),
)
