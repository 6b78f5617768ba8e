-- ===== src/Sanitizer/Patterns.antt =====
-- The patterns of internal/validation/sanitization.go, as the source writes them.
use frontend_router_mcp.Base.{List, [], ◌∷◌, String}

abbrev pub xss_patterns : List String
xss_patterns =
    "<script[^>]*>.*?</script>" ∷ "<iframe[^>]*>.*?</iframe>" ∷ "<object[^>]*>.*?</object>"
    ∷ "<embed[^>]*>.*?</embed>" ∷ "<applet[^>]*>.*?</applet>" ∷ "<meta[^>]*>" ∷ "<base[^>]*>"
    ∷ "<link[^>]*>" ∷ "<style[^>]*>.*?</style>" ∷ "javascript:" ∷ "vbscript:" ∷ "data:"
    ∷ "onload\\s*=" ∷ "onerror\\s*=" ∷ "onclick\\s*=" ∷ "onmouseover\\s*=" ∷ "onmouseout\\s*="
    ∷ "onfocus\\s*=" ∷ "onblur\\s*=" ∷ "onchange\\s*=" ∷ "onsubmit\\s*=" ∷ "onreset\\s*="
    ∷ "onkeydown\\s*=" ∷ "onkeyup\\s*=" ∷ "onkeypress\\s*=" ∷ []

abbrev pub sql_patterns : List String
sql_patterns =
    "(?i)union\\s+select" ∷ "(?i)drop\\s+table" ∷ "(?i)delete\\s+from" ∷ "(?i)insert\\s+into"
    ∷ "(?i)update\\s+.*\\s+set" ∷ "(?i)exec\\s*\\(" ∷ "(?i)execute\\s*\\(" ∷ "(?i)sp_\\w+"
    ∷ "(?i)xp_\\w+" ∷ "--" ∷ "/\\*" ∷ "\\*/" ∷ "';" ∷ "'or" ∷ "'and" ∷ "'union" ∷ "'drop"
    ∷ "'delete" ∷ "'insert" ∷ "'update" ∷ "'exec" ∷ "'execute" ∷ []

abbrev pub command_patterns : List String
command_patterns =
    "(?i)rm\\s+" ∷ "(?i)del\\s+" ∷ "(?i)format\\s+" ∷ "(?i)shutdown\\s+" ∷ "(?i)reboot\\s+"
    ∷ "(?i)halt\\s+" ∷ "(?i)poweroff\\s+" ∷ "(?i)wget\\s+" ∷ "(?i)curl\\s+" ∷ "(?i)nc\\s+"
    ∷ "(?i)netcat\\s+" ∷ "(?i)telnet\\s+" ∷ "(?i)ssh\\s+" ∷ "(?i)ftp\\s+" ∷ "(?i)tftp\\s+" ∷ "&&"
    ∷ "\\|\\|" ∷ "\\|" ∷ "\\$\\(" ∷ "\\$\\{" ∷ "`" ∷ ";" ∷ []

abbrev pub path_patterns : List String
path_patterns =
    "\\.\\./" ∷ "\\.\\.\\\\" ∷ "\\.\\.\\.\\./" ∷ "\\.\\.\\.\\.\\\\" ∷ "%2e%2e%2f" ∷ "%2e%2e%5c"
    ∷ "%252e%252e%252f" ∷ "%252e%252e%255c" ∷ "..%2f" ∷ "..%5c" ∷ "%2e%2e/" ∷ "%2e%2e\\\\" ∷ []

abbrev pub json_patterns : List String
json_patterns =
    "\"}[^\"]*{\"" ∷ "\":\\s*\"[^\"]*\"[^,}]*[,}]" ∷ "__proto__" ∷ "constructor" ∷ "prototype" ∷ []
