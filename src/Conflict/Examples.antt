-- ===== src/Conflict/Examples.antt =====
-- Runs of the conflict resolution on two parties.
use autonomous_enterprise.Shared.{
  ◌≡◌, ◌⊎◌, refl, String, ◌==◌, some, none, true, false, [], lookup, after, result, ok,
}
use autonomous_enterprise.Shared.Int.{ℤ, pos}
use autonomous_enterprise.Ticketing.Repository.{TicketingRepository}
use autonomous_enterprise.Conflict.{
  ConflictParty, ConflictStatus, ConflictResolutionResult, ConflictState, conflict_log,
  detect_and_resolve,
}
use autonomous_enterprise.Conflict.Deciding.{
  outcome, Beats, AwaitsHuman, detect_and_resolve-swap, detect_and_resolve_decides,
}

abbrev number_text : ℤ → String
number_text n = "n"

abbrev no_tickets : TicketingRepository
no_tickets = record { tickets = []; comments = []; assignments = []; slas = [] }

abbrev quiet : ConflictState
quiet = record { audit = []; ticketing = no_tickets }

abbrev buyer : ConflictParty
buyer = record { name = "buyer"; decision = "BUY"; trust_score = some (pos 900) }

abbrev seller : ConflictParty
seller = record { name = "seller"; decision = "WAIT"; trust_score = none }

abbrev verdict : ConflictResolutionResult
verdict = record {
  conflict =
      conflict_log number_text "t" "c" "k" buyer seller "w" ConflictStatus.resolved
        "Resolved via trust score: [buyer] decision [BUY] selected (trust n)";
  resolved = true;
  winning_party = "buyer";
  escalated = false;
  ticket_id = "";
}

detect_and_resolve-swap_example :
    outcome (result (detect_and_resolve number_text "t" "c" "k" buyer seller "w" quiet))
    ≡ outcome (result (detect_and_resolve number_text "t" "c" "k" seller buyer "w" quiet))
detect_and_resolve-swap_example =
    detect_and_resolve-swap number_text "t" "c" "k" buyer seller "w" quiet

verdict_run :
    result (detect_and_resolve number_text "t" "c" "k" buyer seller "w" quiet) ≡ ok verdict
unfolding conflict_log detect_and_resolve autonomous_enterprise.Shared.Int.◌-ℤ◌
verdict_run = refl

detect_and_resolve_decides_example :
    let t = after (detect_and_resolve number_text "t" "c" "k" buyer seller "w" quiet) in
    ((verdict.resolved ≡ true)
      × (((verdict.winning_party ≡ "buyer") × Beats (pos 900) (pos 500))
          ⊎ ((verdict.winning_party ≡ "seller") × Beats (pos 500) (pos 900)))
      × (t.ticketing ≡ no_tickets))
    ⊎ ((verdict.resolved ≡ false)
        × (verdict.ticket_id ≡ "k")
        × AwaitsHuman (lookup "k" t.ticketing.tickets))
detect_and_resolve_decides_example =
    detect_and_resolve_decides number_text "t" "c" "k" buyer seller "w" quiet verdict refl
      verdict_run
