-- ===== src/Witnesses/Control.antt =====
-- The theorems on the guard and on the control plane: an operator's token from another machine.
use spendlease.Base.{
  ℕ, ◌≡◌, refl, ◌⊎◌, true, false, ◌||◌, [], ◌∷◌, none, some, codes, str_eq, starts_with, entry_of,
}
use spendlease.Money.{trim_end, trim_space, trim_left}
use spendlease.Operator.{Operator, Identity, operator, allows}
use spendlease.Sqlite.Operators.{
  OperatorDb, append_operator_audit, get_operator_by_token_hash, has_active_operators,
}
use spendlease.Store.{ok}
use spendlease.Dashboard.{
  Net, AdminRequest, Fresh, Guard, Handler, served, refused, protect_role, safe_method,
  trusted_mutation, audit_record,
}
use spendlease.Dashboard.Guarded.{
  IsLocal, IsOperator, IsLegacy, IsAudited, protect_role-served, protect_role-IsAudited,
}
use spendlease.Controlplane.{ControlState}
use spendlease.Controlplane.Handlers.{ApiCall, Texts, serve_api, route_method}
use spendlease.Controlplane.Roles.{IsAuthorizedChange, serve_api_changes}
use spendlease.Base.Int.{pos}
use spendlease.Dashboard.Management.{Desk, Form}
use spendlease.Dashboard.Management.Serve.{DeskCall, DashState, desk_guard, desk_role, serve_desk}
use spendlease.Dashboard.Management.Changes.{IsDeskChange, serve_desk_changes}
use spendlease.Witnesses.Vault.{plain_aead, keyring}
use spendlease.Witnesses.{plain, with_parent}
use spendlease.Witnesses.Gateway.{gateway}

abbrev network : Net
network = record {
  split_host_port = λ s. none;
  is_loopback_ip = λ s. str_eq s (codes "127.0.0.1");
  url_host = λ s. none;
  basic_auth = λ h. none;
  hash_token = λ token. b'h' ∷ token;
}

abbrev bob : Operator
bob = record {
  id = codes "o1";
  name = codes "bob";
  token_hash = codes "hslo_1";
  role = operator;
  disabled_at = none;
  created_at = 1;
  updated_at = 1;
}

abbrev staff : OperatorDb
staff = record { operators = bob ∷ []; audit = [] }

abbrev guard_of_staff : Guard OperatorDb
guard_of_staff = record {
  token = [];
  operators = some (record {
    get_operator_by_token_hash = get_operator_by_token_hash;
    has_active_operators = λ s. ok (has_active_operators s);
  });
  auditor = some append_operator_audit;
}

abbrev posted : AdminRequest
posted = record {
  method = codes "POST";
  pattern = codes "POST /api/v1/principals/{principal}/runs";
  path = codes "/api/v1/principals/p1/runs";
  request_uri = codes "/api/v1/principals/p1/runs";
  host = codes "spend.example";
  remote_addr = codes "10.0.0.7";
  headers =
      (codes "Authorization", codes "Bearer slo_1") ∷ (codes "X-Spendlease-Admin", codes "1") ∷ [];
}

abbrev drawn : Fresh
drawn = record {
  request_id = codes "aud_q";
  attempt_id = codes "aud_a";
  result_id = codes "aud_r";
  attempt_at = 5;
  result_at = 6;
}

abbrev accept : Handler OperatorDb
accept i s = (s, 201)

abbrev as_bob : Identity
as_bob = record { id = codes "o1"; name = codes "bob"; role = operator }

abbrev after_post : OperatorDb
after_post = (protect_role network guard_of_staff operator drawn posted accept staff).0

lets_bob_in :
    protect_role network guard_of_staff operator drawn posted accept staff
    ≡ (after_post, served as_bob 201)
unfolding protect_role str_eq get_operator_by_token_hash has_active_operators append_operator_audit
    trim_end entry_of trim_space trim_left starts_with audit_record
lets_bob_in = refl

protect_role-served_example :
    (IsLocal network guard_of_staff posted as_bob
      ⊎ (IsOperator network guard_of_staff posted staff as_bob
          ⊎ IsLegacy network guard_of_staff posted as_bob))
    × (allows as_bob.role operator ≡ true)
    × ((safe_method posted.method || trusted_mutation network posted) ≡ true)
protect_role-served_example =
    protect_role-served network guard_of_staff operator drawn posted accept staff after_post as_bob
      201 lets_bob_in

post_is_unsafe : safe_method posted.method ≡ false
unfolding safe_method str_eq
post_is_unsafe = refl

protect_role-IsAudited_example :
    (((protect_role network guard_of_staff operator drawn posted accept staff).0 ≡ staff)
      × ((status : ℕ) × ((protect_role network guard_of_staff operator drawn posted accept staff).1
            ≡ refused status)))
    ⊎ IsAudited network guard_of_staff append_operator_audit drawn posted accept staff
        (protect_role network guard_of_staff operator drawn posted accept staff)
protect_role-IsAudited_example =
    protect_role-IsAudited network guard_of_staff append_operator_audit operator drawn posted accept
      staff refl post_is_unsafe

abbrev asked : ApiCall
asked =
    ApiCall.new_run (codes "p1")
      (record {
        content_type = codes "application/json";
        decoded = some (record { budget_usd = codes "2"; parent_run_id = [] });
      })
      (codes "r9") 7

abbrev texts : Texts
texts = record { atoi = λ s. none; parse_time = λ s. none }

abbrev control : ControlState
control = record { operators = staff; gateway = record { db = with_parent; hashes = [] } }

asked_by_post : posted.method ≡ route_method asked
unfolding route_method
asked_by_post = refl

serve_api_changes_example :
    ((serve_api plain texts network [] asked drawn posted control).0.gateway ≡ control.gateway)
    ⊎ IsAuthorizedChange plain texts gateway network [] asked drawn posted control
        (serve_api plain texts network [] asked drawn posted control).0
serve_api_changes_example =
    serve_api_changes plain texts gateway network [] asked drawn posted control asked_by_post

abbrev desk_now : Desk
desk_now = record {
  providers = codes "openai" ∷ [];
  parse_int = λ s. some (pos 3600);
  now = 7;
  principal_id = codes "p9";
  run_id = codes "r9";
  lease_id = codes "l9";
  key_hash = codes "k9";
  token = codes "sll_9";
  token_hash = codes "t9";
}

abbrev sent : Form
sent = record {
  name = codes "carol";
  mode = codes "enforce";
  budget_usd = codes "2";
  ceiling_usd = [];
  ttl_seconds = codes "3600";
  providers = codes "openai" ∷ [];
  api_key = [];
}

abbrev dashboard : DashState
dashboard = record {
  operators = staff;
  desk = record { gateway = control.gateway; credentials = [] };
}

serve_desk_changes_example :
    ((serve_desk plain_aead keyring [] plain.format_time desk_now network []
        (DeskCall.desk_run (codes "p1") (some sent))
        drawn
        posted
        dashboard).0.desk
      ≡ dashboard.desk)
    ⊎ ((i : Identity) × (IsLocal network (desk_guard []) posted i
          ⊎ (IsOperator network (desk_guard []) posted dashboard i
              ⊎ IsLegacy network (desk_guard []) posted i))
        × (allows i.role (desk_role (DeskCall.desk_run (codes "p1") (some sent))) ≡ true)
        × IsDeskChange plain_aead keyring [] plain gateway desk_now
            (DeskCall.desk_run (codes "p1") (some sent))
            dashboard.desk
            (serve_desk plain_aead keyring [] plain.format_time desk_now network []
              (DeskCall.desk_run (codes "p1") (some sent))
              drawn
              posted
              dashboard).0.desk)
serve_desk_changes_example =
    serve_desk_changes plain_aead keyring [] plain gateway desk_now network []
      (DeskCall.desk_run (codes "p1") (some sent)) drawn posted dashboard
