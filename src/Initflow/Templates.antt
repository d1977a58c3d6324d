-- ===== src/Initflow/Templates.antt =====
-- The texts under internal/initflow/templates that the agent installers write, line by line.
use locksmith.Common.{[], ◌∷◌}
use locksmith.Common.Text.{Text, codes}
use locksmith.Common.Scan.{unlines}

-- templates/claude_skill.md.tmpl
unfoldable pub claude_skill : Text
claude_skill = unlines (
    codes "---"
    ∷ codes "name: locksmith-auth"
    ∷ codes
        "description: Use when MCP server requires authentication headers or secrets from vaults"
    ∷ codes "---"
    ∷ codes ""
    ∷ codes "Use `locksmith get` to retrieve secrets from configured vaults."
    ∷ codes ""
    ∷ codes "If `LOCKSMITH_SESSION` is not set in the environment, `locksmith get` automatically"
    ∷ codes
        "starts a session using the default TTL from config and prints the session ID to stderr."
    ∷ codes "Sessions expire by TTL automatically - no manual cleanup needed."
    ∷ codes ""
    ∷ codes "## Retrieving Secrets"
    ∷ codes ""
    ∷ codes "Use `--key` when the alias is configured in `~/.config/locksmith/config.yaml`:"
    ∷ codes ""
    ∷ codes "    locksmith get --key openai_api_key"
    ∷ codes "    locksmith get --key github_token"
    ∷ codes ""
    ∷ codes "Use `--path` + `--vault` to access a secret directly by its path in the vault"
    ∷ codes "(no alias needed):"
    ∷ codes ""
    ∷ codes "    locksmith get --vault gopass --path work/aws/access-key-id"
    ∷ codes "    locksmith get --vault keychain --path \"My API Token\""
    ∷ codes ""
    ∷ codes "## Session Reuse"
    ∷ codes ""
    ∷ codes "To reuse the same session across multiple calls (avoids repeated vault authorization):"
    ∷ codes "1. Run `locksmith session start` once and export the token:"
    ∷ codes "   `export LOCKSMITH_SESSION=$(locksmith session start | jq -r .session_id)`"
    ∷ codes
        "2. Pass `LOCKSMITH_SESSION` to sub-agents via environment so they share the same session."
    ∷ codes ""
    ∷ codes "Never hardcode secrets. Never cache secrets outside of locksmith."
    ∷ [])

-- templates/claude_md.md.tmpl
unfoldable pub claude_md : Text
claude_md = unlines (
    codes "## Locksmith Integration"
    ∷ codes ""
    ∷ codes "This environment uses [Locksmith](https://github.com/lorem-dev/locksmith) for"
    ∷ codes "secure MCP secret management."
    ∷ codes ""
    ∷ codes "**Session protocol:**"
    ∷ codes ""
    ∷ codes "1. Check if `LOCKSMITH_SESSION` is already set in the environment. If it is,"
    ∷ codes "   use it directly."
    ∷ codes "2. If not set, run before accessing any secret:"
    ∷ codes "   ```bash"
    ∷ codes "   export LOCKSMITH_SESSION=$(locksmith session ensure --quiet)"
    ∷ codes "   ```"
    ∷ codes "   If this fails (daemon not running), continue without secrets."
    ∷ codes "3. Retrieve secrets:"
    ∷ codes ""
    ∷ codes "**Using a configured alias** (`~/.config/locksmith/config.yaml`):"
    ∷ codes ""
    ∷ codes "    locksmith get --key openai_api_key"
    ∷ codes "    locksmith get --key github_token"
    ∷ codes ""
    ∷ codes "**Using a direct vault path** (no alias required):"
    ∷ codes ""
    ∷ codes "    locksmith get --vault gopass --path work/aws/access-key-id"
    ∷ codes "    locksmith get --vault keychain --path \"My API Token\""
    ∷ codes ""
    ∷ codes "- Sessions expire automatically by TTL - no need to end them manually"
    ∷ codes "- Pass `LOCKSMITH_SESSION` to sub-agents so they share the parent session"
    ∷ [])

-- templates/codex_agents.md.tmpl
unfoldable pub codex_agents : Text
codex_agents = unlines (
    codes "## Locksmith Integration"
    ∷ codes ""
    ∷ codes "Secrets are managed by Locksmith."
    ∷ codes ""
    ∷ codes "**Session protocol:**"
    ∷ codes ""
    ∷ codes "1. Check if `LOCKSMITH_SESSION` is set in the environment. If yes, use it."
    ∷ codes "2. If not set, run before accessing any secret:"
    ∷ codes "   ```bash"
    ∷ codes "   export LOCKSMITH_SESSION=$(locksmith session ensure --quiet)"
    ∷ codes "   ```"
    ∷ codes "   If this fails (daemon not running), continue without secrets."
    ∷ codes ""
    ∷ codes "**Retrieving secrets:**"
    ∷ codes ""
    ∷ codes "Use `--key` when the alias is configured in `~/.config/locksmith/config.yaml`:"
    ∷ codes ""
    ∷ codes "    locksmith get --key openai_api_key"
    ∷ codes "    locksmith get --key github_token"
    ∷ codes ""
    ∷ codes "Use `--path` + `--vault` to access a secret directly by its path in the vault"
    ∷ codes "(no alias needed):"
    ∷ codes ""
    ∷ codes "    locksmith get --vault gopass --path work/aws/access-key-id"
    ∷ codes "    locksmith get --vault keychain --path \"My API Token\""
    ∷ codes ""
    ∷ codes
        "- Export the session ID to reuse it: `export LOCKSMITH_SESSION=$(locksmith session start | jq -r .session_id)`"
    ∷ codes "- Pass `LOCKSMITH_SESSION` to sub-agents so they share the parent session."
    ∷ [])

-- templates/agent_instructions.md.tmpl
unfoldable pub agent_instructions : Text
agent_instructions = unlines (
    codes "# Locksmith - Agent Instructions"
    ∷ codes ""
    ∷ codes "## Session Protocol"
    ∷ codes ""
    ∷ codes "Before accessing any secret, ensure a Locksmith session is active:"
    ∷ codes ""
    ∷ codes "1. Check if `LOCKSMITH_SESSION` is set in the environment. If yes, use it."
    ∷ codes "2. If not set, run:"
    ∷ codes "   ```bash"
    ∷ codes "   export LOCKSMITH_SESSION=$(locksmith session ensure --quiet)"
    ∷ codes "   ```"
    ∷ codes "   If this fails (daemon not running), continue without secrets."
    ∷ codes ""
    ∷ codes "## Retrieving Secrets"
    ∷ codes ""
    ∷ codes "Use `--key` when the alias is configured in `~/.config/locksmith/config.yaml`:"
    ∷ codes ""
    ∷ codes "    locksmith get --key openai_api_key"
    ∷ codes "    locksmith get --key github_token"
    ∷ codes ""
    ∷ codes "Use `--path` + `--vault` to access a secret directly by its path in the vault"
    ∷ codes "(no alias needed):"
    ∷ codes ""
    ∷ codes "    locksmith get --vault gopass --path work/aws/access-key-id"
    ∷ codes "    locksmith get --vault keychain --path \"My API Token\""
    ∷ codes ""
    ∷ codes "## Session Management"
    ∷ codes ""
    ∷ codes "Sessions are TTL-based and expire automatically - no need to end them manually."
    ∷ codes ""
    ∷ codes "To share a session across multiple calls (avoids repeated vault authorization):"
    ∷ codes "1. Start: `locksmith session start` - outputs session ID and expiry"
    ∷ codes "2. Export: `export LOCKSMITH_SESSION=<session_id>`"
    ∷ codes "3. All subsequent `locksmith get` calls reuse this session until it expires"
    ∷ codes ""
    ∷ codes "## Sub-Agents"
    ∷ codes ""
    ∷ codes "Pass `LOCKSMITH_SESSION` to sub-agents via environment. They inherit the parent"
    ∷ codes "session's access and secret cache."
    ∷ [])

-- templates/claude_hook.sh.tmpl
unfoldable pub claude_hook : Text
claude_hook = unlines (
    codes "#!/bin/sh"
    ∷ codes "# Locksmith session hook for Claude Code (UserPromptSubmit)."
    ∷ codes "#"
    ∷ codes "# Ensures a valid Locksmith session exists and injects LOCKSMITH_SESSION"
    ∷ codes "# into the Claude Code agent environment before each prompt."
    ∷ codes "#"
    ∷ codes "# If the Locksmith daemon is not running, this hook exits 0 silently so"
    ∷ codes "# it does not block agent work."
    ∷ codes "SESSION=$(locksmith session ensure --quiet 2>/dev/null) || exit 0"
    ∷ codes "printf '{\"env\": {\"LOCKSMITH_SESSION\": \"%s\"}}\\n' \"$SESSION\""
    ∷ [])
