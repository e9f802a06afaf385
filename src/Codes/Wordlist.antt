-- ===== src/Codes/Wordlist.antt =====
-- The word list of internal/crypto/codegen.go.
use Prim.Native.String.{String}
use gmmff.Prelude.{
  ◌≡◌, refl, ℕ, zero, suc, ◌+◌, ◌-◌, ◌/◌, List, [], ◌∷◌, ◌++◌, map, length, ltb, if◌then◌else◌,
}
use gmmff.Prelude.Bytes.{Bytes, codes}

wordlist_names : List String
wordlist_names =
    "acid" ∷ "aged" ∷ "also" ∷ "alto" ∷ "apex" ∷ "arch" ∷ "area" ∷ "army" ∷ "atom" ∷ "aunt" ∷ "avid"
    ∷ "axle" ∷ "baby" ∷ "back" ∷ "bail" ∷ "bait" ∷ "bale" ∷ "ball" ∷ "band" ∷ "bank" ∷ "barn"
    ∷ "base" ∷ "bath" ∷ "bead" ∷ "beam" ∷ "bean" ∷ "bear" ∷ "beat" ∷ "bell" ∷ "belt" ∷ "bend"
    ∷ "best" ∷ "bird" ∷ "bite" ∷ "blot" ∷ "blue" ∷ "blur" ∷ "boat" ∷ "bold" ∷ "bolt" ∷ "bond"
    ∷ "bone" ∷ "book" ∷ "boom" ∷ "boot" ∷ "bore" ∷ "born" ∷ "both" ∷ "bowl" ∷ "brim" ∷ "brow"
    ∷ "buff" ∷ "bulb" ∷ "bulk" ∷ "bull" ∷ "bump" ∷ "burn" ∷ "burp" ∷ "burr" ∷ "bush" ∷ "buzz"
    ∷ "cafe" ∷ "cage" ∷ "cake" ∷ "calm" ∷ "came" ∷ "cane" ∷ "cape" ∷ "card" ∷ "care" ∷ "carp"
    ∷ "cart" ∷ "case" ∷ "cash" ∷ "cast" ∷ "cave" ∷ "cell" ∷ "cent" ∷ "chad" ∷ "chef" ∷ "chin"
    ∷ "chip" ∷ "chop" ∷ "cite" ∷ "city" ∷ "clam" ∷ "clap" ∷ "clay" ∷ "clip" ∷ "clod" ∷ "clog"
    ∷ "clot" ∷ "club" ∷ "clue" ∷ "coal" ∷ "coat" ∷ "coil" ∷ "cold" ∷ "colt" ∷ "comb" ∷ "cone"
    ∷ "cook" ∷ "cool" ∷ "cope" ∷ "cord" ∷ "core" ∷ "cork" ∷ "corn" ∷ "cost" ∷ "cozy" ∷ "crab"
    ∷ "crew" ∷ "crop" ∷ "crow" ∷ "cube" ∷ "cure" ∷ "curl" ∷ "damp" ∷ "dark" ∷ "dart" ∷ "dash"
    ∷ "data" ∷ "date" ∷ "dawn" ∷ "deaf" ∷ "deal" ∷ "dean" ∷ "debt" ∷ "deck" ∷ "deed" ∷ "deep"
    ∷ "deer" ∷ "deft" ∷ "demo" ∷ "dent" ∷ "desk" ∷ "dial" ∷ "diet" ∷ "dill" ∷ "dime" ∷ "dip"
    ∷ "disc" ∷ "dish" ∷ "disk" ∷ "dock" ∷ "dome" ∷ "door" ∷ "dove" ∷ "down" ∷ "draw" ∷ "drip"
    ∷ "drop" ∷ "drum" ∷ "dual" ∷ "duel" ∷ "dune" ∷ "dusk" ∷ "dust" ∷ "duty" ∷ "each" ∷ "earl"
    ∷ "earn" ∷ "ease" ∷ "east" ∷ "edge" ∷ "epic" ∷ "equal" ∷ "even" ∷ "exam" ∷ "exit" ∷ "face"
    ∷ "fact" ∷ "fade" ∷ "fail" ∷ "fair" ∷ "fall" ∷ "fame" ∷ "farm" ∷ "fast" ∷ "fate" ∷ "fawn"
    ∷ "faze" ∷ "feat" ∷ "feed" ∷ "feel" ∷ "feet" ∷ "fell" ∷ "felt" ∷ "fern" ∷ "fest" ∷ "fill"
    ∷ "film" ∷ "find" ∷ "fine" ∷ "firm" ∷ "fish" ∷ "fist" ∷ "flag" ∷ "flat" ∷ "flaw" ∷ "fled"
    ∷ "flew" ∷ "flex" ∷ "flip" ∷ "flit" ∷ "flock" ∷ "flow" ∷ "flux" ∷ "foam" ∷ "fold" ∷ "folk"
    ∷ "fond" ∷ "font" ∷ "food" ∷ "fool" ∷ "ford" ∷ "fore" ∷ "fork" ∷ "form" ∷ "fort" ∷ "foul"
    ∷ "four" ∷ "fray" ∷ "free" ∷ "frog" ∷ "from" ∷ "fuel" ∷ "full" ∷ "fume" ∷ "fuse" ∷ "gale"
    ∷ "gall" ∷ "gaze" ∷ "gear" ∷ "gild" ∷ "gill" ∷ "gist" ∷ "glad" ∷ "glow" ∷ "glue" ∷ "glyph"
    ∷ "goad" ∷ "goal" ∷ "gong" ∷ "good" ∷ "gore" ∷ "gown" ∷ "grab" ∷ "gram" ∷ "gray" ∷ "grew"
    ∷ "grid" ∷ "grin" ∷ "grip" ∷ "grit" ∷ "gulf" ∷ []

unfoldable pub wordlist_base : List Bytes
unfolding wordlist_names
wordlist_base = map codes wordlist_names

-- fmt.Sprintf("%d", n) of a number with one digit
abbrev digit : ℕ → Bytes
digit n = (48 + n) ∷ []

-- The entry that the loop of init appends when the list has `len` words.
unfoldable pub padded : ℕ → Bytes → Bytes
padded len w = if ltb len (length wordlist_base) then w else w ++ digit (len / length wordlist_base)

-- The inner loop of init: `room` is what is missing to 2048, `len` the length of the list so far.
unfoldable pub pad_round : (room len : ℕ) → List Bytes → List Bytes
unfolding padded
pad_round zero len ws = []
pad_round (suc room) len [] = []
pad_round (suc room) len (w ∷ ws) = padded len w ∷ pad_round room (suc len) ws

-- The outer loop: a round adds 256 words, so 8 rounds fill the list.
unfoldable pub pad_rounds : (rounds len : ℕ) → List Bytes
unfolding pad_round
pad_rounds zero len = []
pad_rounds (suc rounds) len =
    pad_round (2048 - len) len wordlist_base ++ pad_rounds rounds (len + length wordlist_base)

unfoldable pub wordlist : List Bytes
unfolding pad_rounds wordlist_base
wordlist = pad_rounds 8 0

pub wordlist-length : length wordlist ≡ 2048
unfolding wordlist
wordlist-length = refl
