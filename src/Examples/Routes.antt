-- ===== src/Examples/Routes.antt =====
-- Requests through the routes of crates/sirr-server/src/server.rs, at concrete inputs.
use sirr.Directory.Roles.{put_role}
use sirr.Directory.Orgs.{put_org}
use sirr.Directory.Principals.{put_principal}
use sirr.OrgSecrets.{put_org_secret}
use sirr.External.Tables.{lookup}
use sirr.Directory.{get_decoded}
use sirr.Prelude.{pos, true, Option, none, some, [], ◌≡◌, ◌⊎◌, refl, subst, arith}
use sirr.Text.{Bytes, codes, strip_prefix}
use sirr.Result.{ok}
use sirr.Directory.PrincipalKeys.{find_principal_key_by_hash}
use sirr.Auth.{unauthorized, bearer_token}
use sirr.Samples.Setting.{setting}
use sirr.Samples.People.{tokens, parsers, state, acme, with_secret}
use sirr.OrgHandlers.Requests.{OrgRequest, get_secret_request, is_for_master}
use sirr.Routes.{
  MasterRoute, OpenRoute, master_route, org_route, open_route, one_org_route, delete_secret_route,
  get_secret_route, get_me_route, open_handler, turned_away, Incoming, serve,
}
use sirr.Routes.Entry.{IsStranger, TurnedAway, HoldsKey, Member, serve_one_org, serve_stranger}

abbrev digest : Bytes → Bytes
digest k = codes "00000000"

-- A request with a token that nobody has.
abbrev guess : Incoming
guess = record {
  authorization = some (codes "Bearer nope");
  ip = codes "10.0.0.9";
  auth_now = pos 60;
  clock = pos 60;
}

abbrev configured : Option Bytes
configured = some (codes "topkey")

abbrev reading : OrgRequest
reading = get_secret_request (pos 60) (pos 60) (pos 60) (codes "a")

serve_one_org_example :
    TurnedAway setting
      (serve tokens setting state parsers digest configured true guess
        (org_route (one_org_route acme reading))
        with_secret)
      with_secret
    ⊎ ((HoldsKey configured guess.authorization × (is_for_master reading ≡ true))
        ⊎ Member tokens setting state parsers digest configured true guess acme with_secret)
serve_one_org_example =
    serve_one_org tokens setting state parsers digest configured true guess acme reading with_secret

borne : bearer_token guess.authorization ≡ some (codes "nope")
unfolding bearer_token strip_prefix
borne = refl

not_stored : find_principal_key_by_hash setting (tokens.sha256 (codes "nope")) with_secret ≡ ok none
unfolding find_principal_key_by_hash get_decoded lookup put_org_secret put_principal put_org
    put_role
not_stored = refl

guess-IsStranger : IsStranger tokens setting configured guess with_secret
guess-IsStranger = record {
  key = codes "topkey";
  configured = refl;
  other = λ e. ground (arith, e, borne);
  unknown = λ token e.
      subst (λ t. find_principal_key_by_hash setting (tokens.sha256 t) with_secret ≡ ok none)
        (ground (arith, e, borne)) not_stored;
}

abbrev removal : MasterRoute
removal = delete_secret_route (codes "a")

abbrev opening : OpenRoute
opening = get_secret_route (pos 60) (codes "a")

serve_stranger_example :
    (serve tokens setting state parsers digest configured true guess
        (org_route get_me_route)
        with_secret
      ≡ (turned_away unauthorized, [], with_secret))
    × (serve tokens setting state parsers digest configured true guess
          (master_route removal)
          with_secret
        ≡ (turned_away unauthorized, [], with_secret))
    × (serve tokens setting state parsers digest configured true guess
          (open_route opening)
          with_secret
        ≡ open_handler tokens setting state parsers digest guess opening with_secret)
serve_stranger_example =
    serve_stranger tokens setting state parsers digest configured true guess get_me_route removal
      opening with_secret guess-IsStranger
