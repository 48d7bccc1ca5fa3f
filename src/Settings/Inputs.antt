-- ===== src/Settings/Inputs.antt =====
-- The inputs of the forms of components/admin/MailSettings.tsx, DiscordSettings.tsx and
-- StorageSettings.tsx, and what is said when the first two are saved.
use helpdesk_go.Base.{Bool, true, false, String, or_text, Option, none, List, [], ◌∷◌}
use helpdesk_go.Oidc.Fields.{optional, required, Input, input}

-- The two cards of the mail settings.
abbrev pub smtp_inputs : List Input
smtp_inputs =
    input "smtp_host" "SMTP Host" optional none
    ∷ input "smtp_port" "SMTP Port" optional none
    ∷ input "smtp_user" "SMTP Username" optional none
    ∷ input "smtp_pass" "SMTP Password" optional none
    ∷ input "smtp_from" "From Address" optional none
    ∷ []

abbrev pub imap_inputs : List Input
imap_inputs =
    input "imap_host" "IMAP Host" optional none
    ∷ input "imap_port" "IMAP Port" optional none
    ∷ input "imap_user" "IMAP Username" optional none
    ∷ input "imap_pass" "IMAP Password" optional none
    ∷ input "imap_folder" "IMAP Folder" optional none
    ∷ []

abbrev pub discord_inputs : List Input
discord_inputs =
    input "bot_token" "Bot Token" optional none
    ∷ input "guild_id" "Server (Guild) ID" required none
    ∷ input "channel_id" "Ticket Channel ID" required none
    ∷ []

-- The last two are check boxes.
abbrev pub storage_inputs : List Input
storage_inputs =
    input "endpoint" "Endpoint" required none
    ∷ input "region" "Region" optional none
    ∷ input "bucket" "Bucket" required none
    ∷ input "access_key_id" "Access Key ID" required none
    ∷ input "secret_access_key" "Secret Access Key" required none
    ∷ input "use_ssl" "Use SSL" optional none
    ∷ input "path_style" "Force Path Style (recommended for Garage/Custom S3)" optional none
    ∷ []

-- What is said after a save, by whether it was a success, and whether it is said as one.
unfoldable pub mail_saved : Bool → Bool × String
mail_saved true = (true, "Email settings saved")
mail_saved false = (false, "Failed to save")

unfoldable pub discord_saved : Bool → Bool × String
discord_saved true = (true, "Discord settings saved. Restart the worker to apply them.")
discord_saved false = (false, "Failed to save Discord settings")

-- The line on the last test, of the mail's page and of the storage's.
unfoldable pub last_test : Option String → String
last_test t = or_text t "never"
