-- ===== src/Example/Usage.antt =====
-- The functions `print_usage` of the programs in example/.
use Prim.Native.String.{String}
use liboizys.Common.{List, [], ◌∷◌}
use liboizys.Example.Program.{Output, text_line}

abbrev texts : List String → Output
texts [] = []
texts (text ∷ rest) = text_line text ∷ texts rest

abbrev pub echo_server_usage : Output
echo_server_usage = texts (
    "echo_server, (C) 2024 Falk Werner" ∷ "Sample echo server" ∷ "" ∷ "Usage:"
    ∷ "    echo-server -e <endpoint>" ∷ "" ∷ "Options:"
    ∷ "    -e, --endpoint <endpoint> - Endpoint to listen (default: /tmp/com_example_echo.sock)"
    ∷ "    -h, --help                - Prints this message" ∷ "" ∷ "Example:"
    ∷ "    echo-server -e /tmp/echo.sock" ∷ [])

abbrev pub echo_client_usage : Output
echo_client_usage = texts (
    "echo-client, (C) 2024 Falk Werner" ∷ "Sample echo client" ∷ "" ∷ "Usage:"
    ∷ "    echo-client -e <endpoint> -m <message>" ∷ "" ∷ "Options:"
    ∷ "    -e, --endpoint <endpoint> - Endpoint to connect to (default): /tmp/com_example.sock)"
    ∷ "    -m, --message <message>   - message to send (default: Hi)"
    ∷ "    -h, --help                - Prints this message" ∷ "" ∷ "Example:"
    ∷ "    echo-server -e /tmp/echo.sock -m 'Hello, World!'" ∷ [])

abbrev pub chat_server_usage : Output
chat_server_usage = texts (
    "chat-server, (C) 2024 Falk Werner" ∷ "Sample chat server" ∷ "" ∷ "Usage:"
    ∷ "    chat-server -e <endpoint>" ∷ "" ∷ "Options:"
    ∷ "    -e, --endpoint <endpoint> - Endpoint to listen (default: /tmp/com_example_chat.sock)"
    ∷ "    -h, --help                - Prints this message" ∷ "" ∷ "Example:"
    ∷ "    chat-server -e /tmp/chat.sock" ∷ [])

abbrev pub chat_client_usage : Output
chat_client_usage = texts (
    "chat-client, (C) 2024 Falk Werner" ∷ "Sample chat client" ∷ "" ∷ "Usage:"
    ∷ "    chat-client -e <endpoint> -u <user>" ∷ "" ∷ "Options:"
    ∷ "    -e, --endpoint <endpoint> - Endpoint to listen (default: /tmp/com_example_chat.sock)"
    ∷ "    -n, --user <user>         - Set user name (default: Bob)"
    ∷ "    -h, --help                - Prints this message" ∷ "" ∷ "Example:"
    ∷ "    chat-client -e /tmp/chat.sock -u John" ∷ [])

abbrev pub notification_server_usage : Output
notification_server_usage = texts (
    "notification-server, (C) 2024 Falk Werner" ∷ "Sample notification server" ∷ "" ∷ "Usage:"
    ∷ "    notification-server -e <endpoint>" ∷ "" ∷ "Options:"
    ∷ "    -e, --endpoint <endpoint> - Endpoint to listen (default: /tmp/oizys_example_notify.sock)"
    ∷ "    -h, --help                - Prints this message" ∷ "" ∷ "Example:"
    ∷ "    notification-server -e /tmp/notify.sock" ∷ [])

abbrev pub notification_client_usage : Output
notification_client_usage = texts (
    "notification-client, (C) 2024 Falk Werner" ∷ "Sample notification client" ∷ "" ∷ "Usage:"
    ∷ "    notification-client -e <endpoint> -u <user>" ∷ "" ∷ "Options:"
    ∷ "    -e, --endpoint <endpoint> - Endpoint to listen (default: /tmp/oizys_example_notify.sock)"
    ∷ "    -h, --help                - Prints this message" ∷ "" ∷ "Example:"
    ∷ "    notification-client -e /tmp/notify.sock" ∷ [])
