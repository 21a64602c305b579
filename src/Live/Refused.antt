-- ===== src/Live/Refused.antt =====
-- What a send that is refused leaves behind.
use intermute.Base.{◌≡◌, true, List, []}
use intermute.Messages.{Tables}
use intermute.Live.Send.{Broadcast, Outcome}
use intermute.Live.Outcomes.{is_refusal}

-- A refusal leaves the tables and sends nothing on the bus.
abbrev pub NothingOnRefusal : Tables → Outcome → Type 0
NothingOnRefusal db out =
    is_refusal out.response ≡ true
    → (Outcome.tables out ≡ db) × (Path (List Broadcast) out.broadcasts [])
