-- ===== src/Transport.antt =====
-- Checks of a mail domain's published transport security: backend/app/proactive/mta_sts.py. DNS, the
-- download of a policy, the hashes and the reading of a certificate are parameters. Times are whole
-- ticks.
pub mod TtlCache
pub mod Cache
pub mod Policy
pub mod TlsaRecords
pub mod Posture
pub mod Rejected
pub mod Proven
mod Tests
