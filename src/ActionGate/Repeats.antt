-- ===== src/ActionGate/Repeats.antt =====
-- An action is proposed once for each key.
use headhunt_agent.Prelude.{◌≡◌, Option, some, refl, sym, subst}
use headhunt_agent.Tx.{ok, ◌>>=◌}
use headhunt_agent.ActionGate.{
  propose_action, existing_action, ActionRequest, ProposedAction, proposed,
}
use headhunt_agent.Storage.Models.{Database, ActionProposal}
use headhunt_agent.Codec.{Codec}
use headhunt_agent.Storage.Tables.{Session}
use headhunt_agent.ActionGate.Answers.{LeavesProposals, propose_action-Answers}

module _ (c : Codec) (notify : Option (ProposedAction → Session (Unit {0}))) where
  replay :
      (request : ActionRequest) (t : Database) (row : ActionProposal)
      → existing_action request.idempotency_key t ≡ some row
      → propose_action c notify request t ≡ (ok (proposed row), t)
  unfolding propose_action ◌>>=◌
  replay request t row found = rw found refl

-- After a proposal, another one under its key is answered with the ids, the reference and the key of
-- the first one, and nothing is written and nobody is notified, whatever else it says. The notifier,
-- if there is one, changes no proposal.
pub propose_action_once :
    (c : Codec) (notify : Option (ProposedAction → Session (Unit {0})))
    (request request' : ActionRequest) (db : Database) (a : ProposedAction)
    → LeavesProposals notify
    → (propose_action c notify request db).0 ≡ ok a
    → request'.idempotency_key ≡ request.idempotency_key
    → propose_action c notify request' (propose_action c notify request db).1
      ≡ (ok a, (propose_action c notify request db).1)
propose_action_once c notify request request' db a leaves h same =
    let (row, found, answer) = propose_action-Answers c notify request db a leaves h in
    let after = (propose_action c notify request db).1 in
    subst (λ x. propose_action c notify request' after ≡ (ok x, after)) answer
      (replay c notify request' after row
        (subst (λ key. existing_action key after ≡ some row) (sym same) found))
