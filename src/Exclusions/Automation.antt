-- ===== src/Exclusions/Automation.antt =====
-- packages/shared/src/exclusions/automation.ts: tokens of automation in a user agent.
pub mod Laws
use growthmind.Prelude.{
  ℕ, Text, text, Bool, true, false, not, ◌&&◌, ◌||◌, Option, none, some, List, [], ◌∷◌, length,
  drop, head?, is_empty, starts_with, in_range, is_digit, if◌then◌else◌,
}
use growthmind.Platform.{Platform}

-- `isAlphanumeric` of the unit beside a token; past either end of the text it is "", which is none.
abbrev pub is_alphanumeric : Option ℕ → Bool
is_alphanumeric none = false
is_alphanumeric (some c) = in_range 97 122 c || is_digit c

-- `indexOf` finds the token at this place, and no letter or digit touches it.
abbrev pub token_here : Text → Option ℕ → Text → Bool
token_here needle before haystack =
    starts_with haystack needle
    && (not (is_alphanumeric before)
        && not (is_alphanumeric (head? (drop (length needle) haystack))))

-- The loop over `from`: the places from the first on, each with the unit before it. `indexOf` passes
-- over the places where the token does not stand.
unfoldable pub token_from : Text → Option ℕ → Text → Bool
token_from needle before [] = false
token_from needle before (c ∷ haystack) =
    token_here needle before (c ∷ haystack) || token_from needle (some c) haystack

unfoldable pub matches_token : Platform → Text → Text → Bool
matches_token W user_agent token =
    let haystack = W.to_lower_case user_agent in
    let needle = W.to_lower_case token in
    if is_empty haystack || is_empty needle then false else token_from needle none haystack

abbrev pub headless_tokens : List Text
headless_tokens =
    text "headless"
    ∷ text "headlesschrome"
    ∷ text "headlessfirefox"
    ∷ text "chrome-headless-shell"
    ∷ text "playwright"
    ∷ text "puppeteer"
    ∷ text "cypress"
    ∷ text "selenium"
    ∷ text "webdriver"
    ∷ text "chromedriver"
    ∷ text "geckodriver"
    ∷ text "phantomjs"
    ∷ text "htmlunit"
    ∷ text "nightmare"
    ∷ text "testcafe"
    ∷ text "puppeteersharp"
    ∷ text "katalon"
    ∷ text "appium"
    ∷ []

abbrev pub known_agent_tokens : List Text
known_agent_tokens =
    text "googlebot"
    ∷ text "adsbot-google"
    ∷ text "mediapartners-google"
    ∷ text "bingbot"
    ∷ text "bingpreview"
    ∷ text "yandexbot"
    ∷ text "duckduckbot"
    ∷ text "baiduspider"
    ∷ text "slurp"
    ∷ text "sogou"
    ∷ text "exabot"
    ∷ text "applebot"
    ∷ text "petalbot"
    ∷ text "bytespider"
    ∷ text "ahrefsbot"
    ∷ text "semrushbot"
    ∷ text "mj12bot"
    ∷ text "dotbot"
    ∷ text "seznambot"
    ∷ text "screaming frog seo spider"
    ∷ text "chrome-lighthouse"
    ∷ text "lighthouse"
    ∷ text "pagespeed"
    ∷ text "gtmetrix"
    ∷ text "pingdom"
    ∷ text "uptimerobot"
    ∷ text "statuscake"
    ∷ text "site24x7"
    ∷ text "datadog synthetics"
    ∷ text "newrelicpinger"
    ∷ text "facebookexternalhit"
    ∷ text "twitterbot"
    ∷ text "linkedinbot"
    ∷ text "slackbot"
    ∷ text "slack-imgproxy"
    ∷ text "discordbot"
    ∷ text "telegrambot"
    ∷ text "curl"
    ∷ text "wget"
    ∷ text "libwww-perl"
    ∷ text "python-requests"
    ∷ text "python-httpx"
    ∷ text "aiohttp"
    ∷ text "go-http-client"
    ∷ text "okhttp"
    ∷ text "axios"
    ∷ text "node-fetch"
    ∷ text "postmanruntime"
    ∷ text "insomnia"
    ∷ text "jmeter"
    ∷ text "gatling"
    ∷ text "locust"
    ∷ text "vegeta"
    ∷ text "apachebench"
    ∷ text "siege"
    ∷ []

abbrev pub coding_agent_tokens : List Text
coding_agent_tokens =
    text "claude-user"
    ∷ text "claude-web"
    ∷ text "claudebot"
    ∷ text "anthropic-ai"
    ∷ text "gptbot"
    ∷ text "oai-searchbot"
    ∷ text "perplexitybot"
    ∷ text "cursor"
    ∷ text "windsurf"
    ∷ text "codeium"
    ∷ text "devin"
    ∷ text "cline"
    ∷ text "aider"
    ∷ text "copilot"
    ∷ text "github-copilot"
    ∷ text "replit"
    ∷ text "bolt.new"
    ∷ text "lovable"
    ∷ text "v0.dev"
    ∷ text "browserbase"
    ∷ text "browserless"
    ∷ text "stagehand"
    ∷ []
