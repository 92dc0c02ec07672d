-- ===== src/Agent/Budget/Appendix.antt =====
-- koraku/agent/budget.py: what the prompt of an integration worker ends with.
use koraku.Prelude.{◌++◌, []}
use koraku.Prelude.Text.{Text, text}
use koraku.Agent.Budget.{ComposioGoal, integration_simple, integration_compose, integration_full}

abbrev simple_appendix : Text
simple_appendix =
    text "\n"
    ++ text "## Integration worker SOP (simple)\n"
    ++ text
        "- Use the minimum Composio actions: list/fetch once, then act (mark read, etc.) if requested.\n"
    ++ text
        "- Target **≤3 tool rounds** total. Do not use TodoWrite, web search, or workspace files unless the goal requires them.\n"
    ++ text
        "- **Gmail:** if the goal includes a `query:` line, use it verbatim in GMAIL_FETCH_EMAILS; otherwise one query like `OLX after:YYYY/MM/DD` for today. Do not spend turns debating search operators.\n"
    ++ text "- Keep internal reasoning brief; prefer calling the tool over planning query syntax.\n"
    ++ text "- Return a short factual summary for the main agent (counts, subjects, errors).\n"

abbrev compose_appendix : Text
compose_appendix =
    text "\n"
    ++ text "## Integration worker SOP (compose / send)\n"
    ++ text "- Verify recipients, times, and content from tool results before send/post/create.\n"
    ++ text "- Prefer drafts when the user did not explicitly confirm send.\n"
    ++ text "- Return what was drafted or sent with identifiers (message id, event time).\n"

abbrev pub composio_worker_sop_appendix : ComposioGoal → Text
composio_worker_sop_appendix integration_simple = simple_appendix
composio_worker_sop_appendix integration_compose = compose_appendix
composio_worker_sop_appendix integration_full = []
