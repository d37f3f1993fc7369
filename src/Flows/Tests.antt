-- ===== src/Flows/Tests.antt =====
-- Flows with a history.
use cipher_post.Prelude.{ℕ, true, none, some, []}
use cipher_post.Prelude.Classes.{nat_eq, string_eq}
use cipher_post.Handshake.Ciphers.{version_name}
use cipher_post.Flows.{MailFlow, Seen, new_flow}

abbrev secure : ℕ → Seen
secure n = record {
  tls_version = version_name (some 0x0304);
  cipher = none;
  encrypted = true;
  at = n;
  fingerprints = [];
}

abbrev modern : MailFlow
modern = record (new_flow (version_name (some 0x0304)) 5) {
  total_sessions = 9;
  encrypted_sessions = 9;
}
