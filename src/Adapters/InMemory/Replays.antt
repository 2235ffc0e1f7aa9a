-- ===== src/Adapters/InMemory/Replays.antt =====
-- What the in-memory adapters answer to a key that is known, and what `initiate` does to the locks.
use banking_transaction_syst.Prelude.Tests.{nat_eq, string_eq}
use banking_transaction_syst.Application.TransferService.Requests
