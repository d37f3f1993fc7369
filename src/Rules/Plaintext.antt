-- ===== src/Rules/Plaintext.antt =====
-- The rules on sessions without TLS and on handshakes that could not be read
-- (backend/app/parsing/rules.py).
use cipher_post.Prelude.{Bool, true, not, ◌&&◌, ltb, ◌==◌}
use cipher_post.Prelude.Classes.{nat_eq, string_eq}
use cipher_post.Rules.{medium, high, critical, SessionAnalysis, add_if, on_some, Rule}

-- not sa.started_tls and not sa.tls_bytes
abbrev pub no_tls : SessionAnalysis → Bool
no_tls sa = not sa.started_tls && sa.tls_bytes == 0

unfoldable pub rule_ssl_in_plaintext : Rule
rule_ssl_in_plaintext sa =
    add_if (no_tls sa && ltb 0 sa.plaintext_bytes) "plaintext-mail-protocol" high sa

unfoldable pub rule_starttls_strip : Rule
rule_starttls_strip sa =
    add_if (sa.saw_starttls_offer && no_tls sa) "starttls-strip-attempt" critical sa

unfoldable pub rule_no_tls_on_tls_port : Rule
rule_no_tls_on_tls_port sa =
    add_if (sa.is_implicit_tls_port && no_tls sa && ltb 0 sa.plaintext_bytes)
      "no-tls-on-implicit-port" critical sa

unfoldable pub rule_handshake_incomplete : Rule
rule_handshake_incomplete sa =
    add_if (sa.started_tls && not (on_some (λ ch. true) sa.client_hello)) "tls-handshake-incomplete"
      medium sa
