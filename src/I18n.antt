-- ===== src/I18n.antt =====
-- internal/i18n/i18n.go: the texts of the bot in two languages.
use cross_platform_media_sha.Base.{Option, none, some, List, [], ◌∷◌, if◌then◌else◌}
use cross_platform_media_sha.Text.{Bytes, Unicode, lit, same, trim, to_lower}

abbrev pub Dict : Type 0
Dict = List (Bytes × Bytes)

-- a lookup in a map of texts
unfoldable pub text_of : Bytes → Dict → Option Bytes
text_of key [] = none
text_of key ((k, v) ∷ d) = if same k key then some v else text_of key d

unfoldable pub english : Dict
english =
    (lit "help_title", lit "Available Commands:")
    ∷ (lit "help_id", lit "Show this Telegram chat ID")
    ∷ (lit "help_status", lit "Show linked Discord channels")
    ∷ (lit "help_block", lit "Add blocked text (all or specific channel)")
    ∷ (lit "help_blocklist", lit "Show blocked words")
    ∷ (lit "help_unblock", lit "Remove blocked text")
    ∷ (lit "help_clearblocks", lit "Clear blocked words")
    ∷ (lit "help_setrule", lit "Set advanced rules (JSON format)")
    ∷ (lit "help_unknown", lit "Unknown command. Use /help")
    ∷ (lit "welcome_step1", lit "Welcome! I am a bridge bot.")
    ∷ (
      lit "welcome_step2",
      lit
          "1. Add me to your Discord server.\n2. In Discord, run: `!join %s`\n3. Enjoy seamless media forwarding!",
    )
    ∷ (lit "cmd_id", lit "This chat ID is: `%s`\n\nIn Discord, run:\n`!join %s`")
    ∷ []

unfoldable pub turkish : Dict
turkish =
    (lit "help_title", lit "Mevcut Komutlar:")
    ∷ (lit "help_id", lit "Bu Telegram sohbet ID'sini göster")
    ∷ (lit "help_status", lit "Bağlı Discord kanallarını göster")
    ∷ (lit "help_block", lit "Yasaklı kelime ekle (tümü veya belirli kanal)")
    ∷ (lit "help_blocklist", lit "Yasaklı kelimeleri göster")
    ∷ (lit "help_unblock", lit "Yasaklı kelimeyi kaldır")
    ∷ (lit "help_clearblocks", lit "Yasaklı kelimeleri temizle")
    ∷ (lit "help_setrule", lit "Gelişmiş kuralları ayarla (JSON formatı)")
    ∷ (lit "help_unknown", lit "Bilinmeyen komut. /help kullanın.")
    ∷ (lit "welcome_step1", lit "Hoş geldin! Ben bir köprü botuyum.")
    ∷ (
      lit "welcome_step2",
      lit
          "1. Beni Discord sunucuna ekle.\n2. Discord kanalında şunu yaz: `!join %s`\n3. Medyalar otomatik aktarılsın!",
    )
    ∷ (lit "cmd_id", lit "Bu sohbetin ID'si: `%s`\n\nDiscord'da şunu yazın:\n`!join %s`")
    ∷ []

abbrev language_of : Bytes → Dict
language_of lang = if same lang (lit "tr") then turkish else english

abbrev or_key : Option Bytes → Bytes → Bytes
or_key none key = key
or_key (some v) key = v

abbrev or_english : Option Bytes → Bytes → Bytes
or_english none key = or_key (text_of key english) key
or_english (some v) key = v

-- i18n.Get: an unknown language is English, a text that is missing is taken from the English ones,
-- and a key that is unknown there too stands for itself
module _ ⦃u : Unicode⦄ where
  unfoldable pub get : Bytes → Bytes → Bytes
  unfolding text_of english turkish
  get lang key = or_english (text_of key (language_of (to_lower (trim lang)))) key
