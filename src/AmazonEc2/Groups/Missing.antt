-- ===== src/AmazonEc2/Groups/Missing.antt =====
-- Which permissions configureSecurityGroupPermissions of drivers/amazonec2/amazonec2.go asks for.
use mathlib.Core.List.{Memᴰ}
use mathlib.Core.List.Memᴰ
use machine.Base.{◌≡◌, ◌⊎◌, Bool, Option, none, some, List, [], ◌∷◌}
use machine.Base.Int.{ℤ}
use machine.Text.{Text}
use machine.Text.Dict.{Dict}
use machine.Text.Decimal.{decimal}
use machine.AmazonEc2.{AmazonEc2, Permission}
use machine.AmazonEc2.Groups.{Rule, port_key}

-- A permission begins at the port of that name.
abbrev pub BeginsAt : Text → Option ℤ → Text → Type 0
unfolding decimal
BeginsAt key none protocol = ⊥
BeginsAt key (some port) protocol = port_key (decimal port) protocol ≡ key

-- One of the permissions begins there.
abbrev pub BeginsIn : List Permission → Text → Type 0
unfolding decimal
BeginsIn [] key = ⊥
BeginsIn (p ∷ ps) key = BeginsAt key p.from_port p.ip_protocol ⊎ BeginsIn ps key

abbrev Known : Option Bool → Type 0
Known none = ⊥
Known (some _) = Unit {0}

-- A rule at whose port no permission of the group begins, and whose permission is asked for.
pub record Needed (ps : List Permission) (rules : List Rule) (q : Permission) : Type 0 where
  pub needed_by : Rule
  pub is_rule : Memᴰ needed_by rules
  pub asks : needed_by.1 ≡ q
  pub closed : BeginsIn ps needed_by.0 → ⊥

-- What is asked for is just what the rules need.
pub record Opens (ps : List Permission) (rules : List Rule) (perms : List Permission) : Type 0 where
  pub opened : (r : Rule) → Memᴰ r rules → BeginsIn ps r.0 ⊎ Memᴰ r.1 perms
  pub no_more : (q : Permission) → Memᴰ q perms → Needed ps rules q

abbrev later_need :
    {ps : List Permission} {r : Rule} {rules : List Rule} {q : Permission}
    → Needed ps rules q
    → Needed ps (r ∷ rules) q
later_need n = record {
  needed_by = n.needed_by;
  is_rule = Memᴰ.tail n.is_rule;
  asks = n.asks;
  closed = n.closed;
}
