-- ===== src/Tests/Commands.antt =====
-- Chat lines and targets.
use voltmod.Commands.Syntax.{tokenize, quoted_line, tokenize-quoted_line, strip_prefix}
use voltmod.Commands.Targeting.{
  TargetQuery, terrorist, counter_terrorist, team, name, parse_target_token,
}
use voltmod.Commands.Targeting.Select.{
  PlayerView, TargetRules, found, failed, no_match, filter_players, candidates, drop_bots,
  drop_dead, drop_protected, settle,
}
use voltmod.Commands.Targeting.Select.Matching.{selects}
use voltmod.Commands.Targeting.Select.Rules.{
  Allowed, filter_players-Allowed, filter_players-no_match,
}
use voltmod.Common.{
  ◌≤◌, ◌≡◌, refl, ◌↔◌, true, false, not, none, some, List, [], ◌∷◌, map, length, all, All, pos,
  negsuc, Bytes, bytes,
}

abbrev words : List Bytes
words = bytes "two words" ∷ [] ∷ bytes "say \"hi\"" ∷ []

tokenize-quoted_line_example : tokenize (quoted_line words) ≡ words
tokenize-quoted_line_example = tokenize-quoted_line words (refl, (refl, (refl, tt)))

strip_run : strip_prefix (bytes "!ping") ≡ some (bytes "ping")
unfolding strip_prefix
strip_run = refl

abbrev alice : PlayerView
alice = record {
  slot = pos 0;
  steam_id = pos 1;
  name = bytes "Alice";
  team = terrorist;
  alive = true;
  bot = false;
  targetable = true;
}

abbrev bob : PlayerView
bob = record alice { slot = pos 1; steam_id = pos 2; name = bytes "Bob"; team = counter_terrorist }

abbrev pair : List PlayerView
pair = alice ∷ bob ∷ []

abbrev single : TargetRules
single = record { allow_multiple = false; allow_dead = false; allow_bots = false }

abbrev team_ct : TargetQuery
team_ct = record {
  kind = team;
  team = counter_terrorist;
  slot = negsuc 0;
  steam_id = pos 0;
  needle = [];
}

parse_run : parse_target_token (bytes "@CT") ≡ team_ct
unfolding parse_target_token
parse_run = refl

filter_run : filter_players pair team_ct single (pos 0) none ≡ found (pos 1 ∷ [])
unfolding filter_players candidates drop_bots drop_dead drop_protected settle
filter_run = refl

filter_players-Allowed_example :
    (ps : List PlayerView) × (pos 1 ∷ [] ≡ map (λ p. p.slot) ps)
    × All (Allowed team_ct single (pos 0) pair) ps
    × (1 ≤ length ps)
    × (false ≡ false → length ps ≤ 1)
filter_players-Allowed_example =
    filter_players-Allowed pair team_ct single (pos 0) none (pos 1 ∷ []) filter_run

abbrev carol : TargetQuery
carol = record team_ct { kind = name; needle = bytes "carol" }

filter_players-no_match_example :
    (filter_players pair carol single (pos 0) none ≡ failed no_match 0)
    ↔ (all (λ p. not (selects carol (pos 0) name p)) pair ≡ true)
filter_players-no_match_example = filter_players-no_match pair carol single (pos 0) none
