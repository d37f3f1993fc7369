-- ===== src/Reassembly/Segments.antt =====
-- How `_assign_tls_segments` splits the two directions of a stream.
use Prim.Native.String.{String}
use mathlib.Core.Path.{subst}
use cipher_post.Prelude.{
  ℕ, suc, ◌+◌, ◌≤◌, ◌≡◌, sym, ap, ◌∙◌, inl, inr, true, false, some, ◌++◌, append-nil, append_assoc,
  arith, Bool-cases, Option-cases, length, take, drop, length-append, take-append-drop, length-take,
  take-append,
}
use cipher_post.Prelude.Bytes.{Bytes}
use cipher_post.Prelude.Bytes.{find, find_from, find_at-Occurs}
use cipher_post.Prelude.Classes.{nat_eq, string_eq}
use cipher_post.Reassembly.Session.{
  value, is_implicit_tls_port, Session, starttls_transition, unannounced_tls, split_at,
  all_plaintext, assign_tls_segments,
}
use cipher_post.Records.{
  valid_record_at, find_tls_offset, default_max_scan, starttls_command, crlf, end_of_command,
  find_starttls_offset,
}
use cipher_post.Records.Scan.{FirstIn, find_tls_offset-FirstIn}

-- The two client segments are the client's bytes.
abbrev Splits : Bytes → Session → Type 0
Splits client_bytes sess = sess.plaintext_segment ++ sess.tls_segment ≡ client_bytes

split_at-client :
    (sess : Session) (off : ℕ) (client_bytes server_bytes : Bytes)
    → ((split_at sess off client_bytes server_bytes).plaintext_segment ≡ take off client_bytes)
      × ((split_at sess off client_bytes server_bytes).tls_segment ≡ drop off client_bytes)
      × ((split_at sess off client_bytes server_bytes).transition_offset ≡ some off)
      × ((split_at sess off client_bytes server_bytes).is_starttls ≡ sess.is_starttls)
unfolding split_at
split_at-client sess off cb sb = ground arith

split_at-Splits :
    (sess : Session) (off : ℕ) (client_bytes server_bytes : Bytes)
    → Splits client_bytes (split_at sess off client_bytes server_bytes)
split_at-Splits sess off cb sb =
    let (p, q, _, _) = split_at-client sess off cb sb in rw (p, q) (take-append-drop off cb)

-- Which of the four ways `assign_tls_segments` takes.
data Way (sess : Session) (client_bytes server_bytes : Bytes) (out : Session) : Type 0 where
  implicit :
      is_implicit_tls_port sess.server_port ≡ true
      → out ≡ split_at (record sess { is_starttls = false }) 0 client_bytes server_bytes
      → Way sess client_bytes server_bytes out
  starttls :
      (off : ℕ)
      → is_implicit_tls_port sess.server_port ≡ false
      → starttls_transition sess client_bytes ≡ some off
      → out ≡ split_at (record sess { is_starttls = true }) off client_bytes server_bytes
      → Way sess client_bytes server_bytes out
  unannounced :
      (off : ℕ)
      → unannounced_tls client_bytes ≡ some off
      → out ≡ split_at (record sess { is_starttls = false }) off client_bytes server_bytes
      → Way sess client_bytes server_bytes out
  plain :
      out ≡ all_plaintext sess client_bytes server_bytes → Way sess client_bytes server_bytes out

way :
    (sess : Session) (client_bytes server_bytes : Bytes)
    → Way sess client_bytes server_bytes (assign_tls_segments sess client_bytes server_bytes)
way sess cb sb = elim (Bool-cases (is_implicit_tls_port sess.server_port)) [
  | inl e ↦ implicit e (unfold assign_tls_segments in rw (e, assign_tls_segments))
  | inr e ↦ elim (Option-cases (starttls_transition sess cb)) [
    | inr (off, s) ↦ starttls off e s (unfold assign_tls_segments in rw (e, s, assign_tls_segments))
    | inl s ↦ elim (Option-cases (unannounced_tls cb)) [
      | inr (off, t) ↦
          unannounced off t (unfold assign_tls_segments in rw (e, s, t, assign_tls_segments))
      | inl t ↦ plain (unfold assign_tls_segments in rw (e, s, t, assign_tls_segments))
    ]
  ]
]

-- However the session is classified, the plaintext and the TLS part of the client's bytes are
-- together the client's bytes.
pub assign_tls_segments-client :
    (sess : Session) (client_bytes server_bytes : Bytes)
    → let out = assign_tls_segments sess client_bytes server_bytes in
      out.plaintext_segment ++ out.tls_segment ≡ client_bytes
assign_tls_segments-client sess cb sb = elim (way sess cb sb) [
  | implicit e w ↦
      subst (Splits cb) (sym w) (split_at-Splits (record sess { is_starttls = false }) 0 cb sb)
  | starttls off e s w ↦
      subst (Splits cb) (sym w) (split_at-Splits (record sess { is_starttls = true }) off cb sb)
  | unannounced off t w ↦
      subst (Splits cb) (sym w) (split_at-Splits (record sess { is_starttls = false }) off cb sb)
  | plain w ↦ subst (Splits cb) (sym w) (unfold all_plaintext in append-nil cb)
]

-- What a STARTTLS session shows.
pub record Upgraded (client_bytes : Bytes) (out : Session) : Type 0 where
  pub command : Bytes
  pub hit : ℕ × ℕ
  pub line : out.plaintext_segment ≡ command ++ crlf
  pub records : valid_record_at out.tls_segment ≡ some hit
  pub offset : out.transition_offset ≡ some (length command + 2)

regroup : (a b c d : Bytes) → a ++ ((b ++ c) ++ d) ≡ ((a ++ b) ++ c) ++ d
regroup a b c d = simp append_assoc

-- A line end found at or behind a position that lies in the text.
line_end :
    (idx : ℕ) (bs : Bytes) (eol : ℕ)
    → idx ≤ length bs
    → find_from crlf bs idx ≡ some eol
    → (pre : Bytes) × (take (eol + 2) bs ≡ pre ++ crlf) × (eol ≡ length pre)
unfolding find_from
line_end idx bs eol h e =
    let (mid, o, at) = find_at-Occurs crlf idx (drop idx bs) eol e in
    let pre : Bytes = take idx bs ++ mid in
    let len : eol ≡ length pre =
      omega (arith, at, length-append (take idx bs) mid, length-take idx bs) in
    let whole : bs ≡ (pre ++ crlf) ++ o.post =
      sym (take-append-drop idx bs)
      ∙ ap (λ r. take idx bs ++ r) o.same
      ∙ regroup (take idx bs) mid crlf o.post in
    let len2 : eol + 2 ≡ length (pre ++ crlf) = omega (arith, len, length-append pre crlf) in
    (
      pre,
      rw len2 (
          subst (λ b. take (length (pre ++ crlf)) b ≡ pre ++ crlf) (sym whole)
            (take-append (pre ++ crlf) o.post)),
      len,
    )

find-le : (cmd bs : Bytes) (idx : ℕ) → find cmd bs ≡ some idx → idx ≤ length bs
unfolding find
find-le cmd bs idx e =
    let (pre, o, at) = find_at-Occurs cmd 0 bs idx e in
    omega (arith, at, ap length o.same, length-append (pre ++ cmd) o.post, length-append pre cmd)

end_of_command-crlf :
    (cmd bs : Bytes) (off : ℕ)
    → end_of_command cmd bs ≡ some off
    → (pre : Bytes) × (take off bs ≡ pre ++ crlf) × (off ≡ length pre + 2)
end_of_command-crlf cmd bs off h = elim (Option-cases (find cmd bs)) [
  | inl e ↦ unfold end_of_command in ground (arith, e)
  | inr (idx, e) ↦ elim (Option-cases (find_from crlf bs idx)) [
    | inl k ↦ unfold end_of_command in ground (arith, e, k)
    | inr (eol, k) ↦
        let (pre, line, len) = line_end idx bs eol (find-le cmd bs idx e) k in
        let same : off ≡ eol + 2 = unfold end_of_command in ground (arith, e, k) in
        (pre, rw same line, omega (arith, same, len))
  ]
]

command_of :
    (bs : Bytes) (protocol : String) (off : ℕ)
    → find_starttls_offset bs protocol ≡ some off
    → (cmd : Bytes) × (starttls_command protocol ≡ some cmd) × (end_of_command cmd bs ≡ some off)
command_of bs protocol off h = elim (Option-cases (starttls_command protocol)) [
  | inl e ↦ unfold find_starttls_offset in ground (arith, e)
  | inr (cmd, e) ↦ (cmd, e, unfold find_starttls_offset in ground (arith, e))
]

starttls_transition-crlf :
    (sess : Session) (bs : Bytes) (off : ℕ)
    → starttls_transition sess bs ≡ some off
    → (pre : Bytes) × (hit : ℕ × ℕ) × (take off bs ≡ pre ++ crlf)
      × (off ≡ length pre + 2)
      × (valid_record_at (drop off bs) ≡ some hit)
starttls_transition-crlf sess bs off h =
    elim (Option-cases (find_starttls_offset bs (value sess.protocol))) [
      | inl e ↦ unfold starttls_transition in ground (arith, e)
      | inr (o, e) ↦ elim (Option-cases (find_tls_offset (drop o bs) default_max_scan)) [
        | inl k ↦ unfold starttls_transition in ground (arith, e, k)
        | inr (at, k) ↦
            let same : off ≡ o = unfold starttls_transition in ground (arith, e, k) in
            let zero_at : at ≡ 0 = unfold starttls_transition in ground (arith, e, k) in
            let first =
              subst (FirstIn (drop o bs) 0 (suc default_max_scan)) k
                (find_tls_offset-FirstIn (drop o bs) default_max_scan) in
            let valid : valid_record_at (drop 0 (drop o bs)) ≡ some first.2 =
              subst (λ n. valid_record_at (drop n (drop o bs)) ≡ some first.2) zero_at first.3 in
            let (cmd, c, f) = command_of bs (value sess.protocol) o e in
            let (pre, line, len) = end_of_command-crlf cmd bs o f in
            (pre, first.2, rw same line, omega (arith, same, len), rw same valid)
      ]
    ]

-- A session is reported as STARTTLS only if its port is no implicit-TLS port, the client's
-- plaintext ends with a line end, and a valid TLS record starts right behind it.
pub assign_tls_segments-Upgraded :
    (sess : Session) (client_bytes server_bytes : Bytes)
    → sess.is_starttls ≡ false
    → (assign_tls_segments sess client_bytes server_bytes).is_starttls ≡ true
    → (is_implicit_tls_port sess.server_port ≡ false)
      × Upgraded client_bytes (assign_tls_segments sess client_bytes server_bytes)
assign_tls_segments-Upgraded sess cb sb fresh h = elim (way sess cb sb) [
  | implicit e w ↦ cc ((split_at-client (record sess { is_starttls = false }) 0 cb sb).3)
  | unannounced off t w ↦ cc ((split_at-client (record sess { is_starttls = false }) off cb sb).3)
  | plain w ↦ unfold all_plaintext in cc (ap (λ (s : Session). s.is_starttls) w)
  | starttls off e s w ↦
      let (p, q, r, _) = split_at-client (record sess { is_starttls = true }) off cb sb in
      let (pre, hit, line, len, valid) = starttls_transition-crlf sess cb off s in
      (
        e,
        subst (Upgraded cb) (sym w) (record {
          command = pre;
          hit = hit;
          line = p ∙ line;
          records = rw q valid;
          offset = rw r (ap some len);
        }),
      )
]

-- What the split leaves alone.
pub record SameEnds (sess out : Session) : Type 0 where
  pub protocol : out.protocol ≡ sess.protocol
  pub client_ip : out.client_ip ≡ sess.client_ip
  pub client_port : out.client_port ≡ sess.client_port
  pub server_ip : out.server_ip ≡ sess.server_ip
  pub server_port : out.server_port ≡ sess.server_port

split_at-SameEnds :
    (sess : Session) (off : ℕ) (cb sb : Bytes) → SameEnds sess (split_at sess off cb sb)
unfolding split_at
split_at-SameEnds sess off cb sb = ground arith

pub assign_tls_segments-SameEnds :
    (sess : Session) (client_bytes server_bytes : Bytes)
    → SameEnds sess (assign_tls_segments sess client_bytes server_bytes)
assign_tls_segments-SameEnds sess cb sb = elim (way sess cb sb) [
  | implicit e w ↦
      subst (SameEnds sess) (sym w)
        (ground (arith, split_at-SameEnds (record sess { is_starttls = false }) 0 cb sb))
  | starttls off e s w ↦
      subst (SameEnds sess) (sym w)
        (ground (arith, split_at-SameEnds (record sess { is_starttls = true }) off cb sb))
  | unannounced off t w ↦
      subst (SameEnds sess) (sym w)
        (ground (arith, split_at-SameEnds (record sess { is_starttls = false }) off cb sb))
  | plain w ↦ subst (SameEnds sess) (sym w) (unfold all_plaintext in ground arith)
]
