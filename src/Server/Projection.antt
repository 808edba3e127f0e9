-- ===== src/Server/Projection.antt =====
-- server/src/projection.rs: which fields of a response are public. The descriptors of the response
-- messages are the protocol's: `field_of` is what they say of a message's field, by its JSON name.
-- Every member of an object is projected and the allowed ones are taken; the code projects only
-- those, which gives the same answer.
pub mod Laws
pub mod Kept
mod Tests
use moenotes_api.Prelude.{
  Bool, List, Option, String, [], false, if◌then◌else◌, none, not, some, str_eq, true, ◌||◌, ◌∷◌,
}
use moenotes_api.Errors.{Result, err, error_of, ok, protocol, require, ◌>>=◌, ◌>>◌}
use moenotes_api.Server.Json.{
  Members, Value, Values, array_value, member, no_members, no_values, object_value, put, value_and,
}

pub data ResponseMode : Type 0 where
  disabled_mode public_mode raw_mode : ResponseMode

-- The `match` as a table.
abbrev pub allowed_table : List (String × List String)
allowed_table =
    ("app.announcement.GetResponse", "announcement" ∷ [])
    ∷ ("app.announcement.GetListResponse", "announcements" ∷ "externalContents" ∷ [])
    ∷ (
      "entity.Announcement",
      "id" ∷ "category" ∷ "title" ∷ "bannerPath" ∷ "bannerUrl" ∷ "body" ∷ "startAt" ∷ "endAt"
          ∷ "sortOrder" ∷ "pickupBannerPath" ∷ "pickupBannerUrl" ∷ "pickupStartAt" ∷ "pickupEndAt"
          ∷ "lastUpdatedAt" ∷ "stylesheetId" ∷ [],
    )
    ∷ ("entity.AnnouncementExternalContent", "id" ∷ "bannerPath" ∷ [])
    ∷ ("app.arena.ArenaRankingResponse", "ranking" ∷ "maxRank" ∷ [])
    ∷ ("entity.ArenaRankingEntry", "profile" ∷ "deck" ∷ "rank" ∷ "point" ∷ [])
    ∷ (
      "entity.PlayerSimpleProfile",
      "id" ∷ "name" ∷ "rankExp" ∷ "lastUpdatedAt" ∷ "favoriteMemberCard" ∷ "profileId"
          ∷ "favoriteMemberCardMasterId" ∷ "profileCard" ∷ [],
    )
    ∷ (
      "entity.DeckMemberCardDetail",
      "cardId" ∷ "exp" ∷ "awakeCount" ∷ "cardRank" ∷ "liveSkillLevel" ∷ "performanceSkillLevel"
          ∷ [],
    )
    ∷ ("entity.SimpleProfileCard", "slot" ∷ "name" ∷ "thumbnailUrl" ∷ [])
    ∷ ("entity.DeckDetail", "id" ∷ "name" ∷ "cards" ∷ "totalPower" ∷ [])
    ∷ (
      "entity.DeckCardDetail",
      "slotIndex" ∷ "performanceOrderIndex" ∷ "memberCard" ∷ "supportCard" ∷ [],
    )
    ∷ ("entity.DeckSupportCardDetail", "cardId" ∷ "exp" ∷ "rank" ∷ [])
    ∷ ("app.arena.DeckTrendResponse", "leaders" ∷ "members" ∷ "supports" ∷ [])
    ∷ ("entity.ArenaDeckTrendMemberCard", "memberCardId" ∷ [])
    ∷ ("entity.ArenaDeckTrendSupportCard", "supportCardId" ∷ [])
    ∷ ("app.circle.GetCircleResponse", "circle" ∷ [])
    ∷ ("entity.CircleDetailWithPlayerList", "detail" ∷ "players" ∷ "circleRanking" ∷ [])
    ∷ (
      "entity.Circle",
      "id" ∷ "name" ∷ "description" ∷ "joinRule" ∷ "playStyle" ∷ "totalPoint" ∷ "weeklyTotalPoint"
          ∷ "memberCount" ∷ "masterLastLoginAt" ∷ "currentRank" ∷ "nextRankPoint" ∷ [],
    )
    ∷ (
      "entity.CirclePlayer",
      "playerId" ∷ "circleId" ∷ "auth" ∷ "point" ∷ "weeklyTotalPoint" ∷ "profile" ∷ [],
    )
    ∷ ("app.circle.SearchResponse", "circles" ∷ [])
    ∷ ("entity.CircleWithMasterPlayer", "circle" ∷ "profile" ∷ [])
    ∷ ("app.event.GetChallengeMusicRankingResponse", "players" ∷ [])
    ∷ ("app.livemusic.GetRankingResponse", "players" ∷ [])
    ∷ ("app.event.ChallengeLiveRankingPlayer", "playerData" ∷ "score" ∷ "highScoreDeck" ∷ [])
    ∷ ("app.livemusic.LiveRankingPlayer", "playerData" ∷ "score" ∷ "highScoreDeck" ∷ [])
    ∷ ("app.event.GetDeckResponse", "deck" ∷ [])
    ∷ ("app.event.GetRankingListResponse", "ranking" ∷ [])
    ∷ ("app.event.EventRankingEntry", "profile" ∷ "rank" ∷ "point" ∷ [])
    ∷ ("app.friend.FindByProfileIDResponse", "playerProfile" ∷ [])
    ∷ (
      "app.gacha.ProbabilityResponse",
      "lot" ∷ "prize" ∷ "ensuredLot" ∷ "ensuredPrize" ∷ "probabilities" ∷ "products"
          ∷ "ensuredProducts" ∷ [],
    )
    ∷ ("entity.LotProbability", "lotId" ∷ "probabilityPercent" ∷ [])
    ∷ ("entity.PrizeProbability", "prizeId" ∷ "probabilityPercent" ∷ [])
    ∷ ("entity.Probability", "lot" ∷ "prize" ∷ [])
    ∷ ("app.player.GetPlayerFavoriteStatusResponse", "totalFavorite" ∷ [])
    ∷ ("app.playerext.GetPlayerListResponse", "players" ∷ [])
    ∷ []

abbrev pub allowed_in : List (String × List String) → String → List String
allowed_in [] message = []
allowed_in ((m, fields) ∷ table) message =
    if str_eq m message then fields else allowed_in table message

unfoldable pub allowed : String → List String
allowed message = allowed_in allowed_table message

abbrev pub is_public : ResponseMode → Bool
is_public public_mode = true
is_public _ = false

unfoldable pub permitted : ResponseMode → String → Bool
permitted mode method = not (is_public mode) || not (str_eq method "circle-recommendations")

-- `Kind`, as far as the projection reads it, and what a descriptor says of a field. A map has the
-- kind of its values, where its entry message has a field for them.
pub data Kind : Type 0 where
  plain : Kind
  message : String → Kind

pub data Shape : Type 0 where
  single : Kind → Shape
  repeated : Kind → Shape
  keyed : Option Kind → Shape

abbrev pub invalid {ℓ} : {A : Type ℓ} → Result A
invalid = err (error_of protocol)

abbrev pub found : String → List (String × Result Value) → Option (Result Value)
found name [] = none
found name ((n, r) ∷ rs) = if str_eq n name then some r else found name rs

-- The loop over the allowed names: a member that is absent is left out.
unfoldable pub select : List String → List (String × Result Value) → Members → Result Members
select [] fields out = ok out
select (name ∷ names) fields out = elim (found name fields) [
  | none ↦ select names fields out
  | some r ↦ r >>= λ v. select names fields (put name v out)
]

module _ (field_of : String → String → Option Shape) where
  unfoldable mutual
    -- The value of one field, by its shape; `scalar` and `object` for a single one.
    pub field_as : Option Shape → Value → Result Value
    field_as (some (single plain)) v = ok v
    field_as (some (single (message d))) (object_value m) = do
      out ← select (allowed d) (members_as d m) no_members
      ok (object_value out)
    field_as (some (repeated k)) (array_value vs) = do ws ← values_as k vs; ok (array_value ws)
    field_as (some (keyed (some k))) (object_value m) = do
      out ← entries_as k m
      ok (object_value out)
    field_as _ _ = invalid

    pub values_as : Kind → Values → Result Values
    values_as k no_values = ok no_values
    values_as k (value_and v vs) = do
      w ← field_as (some (single k)) v
      ws ← values_as k vs
      ok (value_and w ws)

    pub entries_as : Kind → Members → Result Members
    entries_as k no_members = ok no_members
    entries_as k (member key v m) = do
      w ← field_as (some (single k)) v
      out ← entries_as k m
      ok (member key w out)

    pub members_as : String → Members → List (String × Result Value)
    members_as d no_members = []
    members_as d (member name v m) = (name, field_as (field_of d name) v) ∷ members_as d m

  -- `project`, by the name of the response message, if the method has one.
  unfoldable pub project : Option String → Value → Result Value
  project output v = require output protocol >>= λ d. field_as (some (single (message d))) v
