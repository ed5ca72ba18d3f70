-- ===== src/Discord/Access.antt =====
-- Who may use the administration commands of the Discord bot.
use cross_platform_media_sha.Base.{
  ℤ, Bool, true, false, Option, none, some, List, [], ◌∷◌, any, if◌then◌else◌,
}
use cross_platform_media_sha.Text.{Bytes, lit, trim, same, is_empty, split}
use cross_platform_media_sha.Database.Store.{Result, ok, err}
use cross_platform_media_sha.Discord.Message.{Author, Member, MessageCreate}

-- The session of the Discord library: the permissions it has cached and those it asks the server
-- for, the test for PermissionManageChannels, and the members of a guild.
pub record Session : Type 0 where
  pub user_id : Bytes
  pub cached_permissions : Bytes → Bytes → Result ℤ
  pub user_channel_permissions : Bytes → Bytes → Result ℤ
  pub manages_channels : ℤ → Bool
  pub guild_member : Bytes → Bytes → Result Member

-- DISCORD_ADMIN_ROLE_IDS and DISCORD_TRUSTED_USER_IDS
pub record Admins : Type 0 where
  pub admin_role_ids : List Bytes
  pub trusted_user_ids : List Bytes

unfoldable pub role_ids : List Bytes → List Bytes
role_ids [] = []
role_ids (part ∷ parts) =
    let rest = role_ids parts in if is_empty (trim part) then rest else trim part ∷ rest

unfoldable pub parse_role_ids : Bytes → List Bytes
unfolding role_ids split
parse_role_ids raw = role_ids (split raw b',')

abbrev permissions_of : Result ℤ → Result ℤ → Result ℤ
permissions_of (ok p) asked = ok p
permissions_of (err e) asked = asked

abbrev pub allows : Session → Result ℤ → Bool
allows s (ok p) = s.manages_channels p
allows s (err e) = false

abbrev pub has_role : List Bytes → List Bytes → Bool
has_role allowed roles = any (λ r. any (same r) allowed) roles

abbrev fetched_has_role : List Bytes → Result Member → Bool
fetched_has_role allowed (err e) = false
fetched_has_role allowed (ok m) = has_role allowed m.roles

abbrev member_has_role : List Bytes → Option Member → Result Member → Bool
member_has_role allowed none fetched = fetched_has_role allowed fetched
member_has_role allowed (some m) fetched = has_role allowed m.roles

-- without configured roles, none counts
abbrev admin_by_role : List Bytes → Option Member → Result Member → Bool
admin_by_role [] m fetched = false
admin_by_role (r ∷ rs) m fetched = member_has_role (r ∷ rs) m fetched

unfoldable pub is_authorized_admin_command : Session → Admins → MessageCreate → Author → Bool
is_authorized_admin_command s c m a =
    if is_empty m.guild_id
    then false
    else if any (same a.id) c.trusted_user_ids
    then true
    else if allows s (
        permissions_of (s.cached_permissions a.id m.channel_id)
          (s.user_channel_permissions a.id m.channel_id))
    then true
    else admin_by_role c.admin_role_ids m.member (s.guild_member m.guild_id a.id)

unfoldable pub is_managed_command : Bytes → Bool
is_managed_command command = any (same command) (
    lit "!join"
    ∷ lit "!unlink"
    ∷ lit "!status"
    ∷ lit "!help"
    ∷ lit "!blocklist"
    ∷ lit "!unblock"
    ∷ lit "!clearblocks"
    ∷ lit "!deadletters"
    ∷ lit "!replaydead"
    ∷ lit "!setrule"
    ∷ lit "!auditlog"
    ∷ [])
